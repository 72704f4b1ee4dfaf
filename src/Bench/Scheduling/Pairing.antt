-- ===== src/Bench/Scheduling/Pairing.antt =====
-- Two processes that connect, scheduler by scheduler.
use dlslime.Prelude.{
  ℕ, ◌+◌, ◌<◌, ◌≡◌, refl, true, String, some, List, [], ◌∷◌, ◌++◌, map, length, ok, append-nil,
  append_assoc,
}
use dlslime.Json.{JsonLib}
use dlslime.Context.Connect.Peer.{AllSucceed}
use dlslime.Scheduler
use dlslime.Scheduler.{Scheduler, scheduler_info}
use dlslime.Scheduler.Exchange.{AllCompatible, AllLinked, connect-scheduler_info}
use dlslime.Bench.Wire.{send, recv}
use dlslime.Bench.Scheduling.{World}
use dlslime.Bench.Scheduling.Session.{Tcp, init_connections, init_connection, tcp_send, tcp_recv}

-- The schedulers of the two sides fit one by one: both have contexts, which fit one by one.
abbrev pub AllPaired : List Scheduler → List Scheduler → Type 0
AllPaired [] [] = Unit
AllPaired [] (p ∷ ps) = ⊥
AllPaired (s ∷ ss) [] = ⊥
AllPaired (s ∷ ss) (p ∷ ps) =
    (0 < length p.rdma_ctxs) × AllCompatible s.rdma_ctxs p.rdma_ctxs × AllPaired ss ps

-- Each scheduler's contexts have become what connecting to its peer's contexts makes of them.
abbrev pub AllConnected : List Scheduler → List Scheduler → List Scheduler → Type 0
AllConnected [] ps [] = Unit
AllConnected [] ps (s' ∷ ss') = ⊥
AllConnected (s ∷ ss) [] ss' = ⊥
AllConnected (s ∷ ss) (p ∷ ps) [] = ⊥
AllConnected (s ∷ ss) (p ∷ ps) (s' ∷ ss') =
    AllLinked s.rdma_ctxs p.rdma_ctxs s'.rdma_ctxs × AllConnected ss ps ss'

module _ (j : JsonLib) (w : World j.Json) where
  open j use {Json}

  -- The text of what each scheduler says of itself.
  abbrev pub texts : List Scheduler → List String
  texts = map (λ s. w.dump (scheduler_info j s))

  -- Parsing what has been dumped gives it back.
  abbrev pub AllReadable : List Scheduler → Type 0
  AllReadable [] = Unit
  AllReadable (p ∷ ps) =
      (w.parse (w.dump (scheduler_info j p)) ≡ some (scheduler_info j p)) × AllReadable ps

  init_connection-ok :
      (i : ℕ) (s s' : Scheduler) (t : Tcp) (message : String) (rest : List String) (info : Json)
      → t.send_socket ≡ true
      → t.recv_socket ≡ true
      → t.wire.arriving ≡ message ∷ rest
      → w.parse message ≡ some info
      → Scheduler.connect j (w.answers i) s info ≡ ok s'
      → init_connection j w i s t
        ≡ ok (
          s',
          record t {
            wire = record {
              sent = t.wire.sent ++ (w.dump (scheduler_info j s) ∷ []);
              arriving = rest;
            };
          },
        )
  unfolding init_connection tcp_send tcp_recv send recv
  init_connection-ok i s s' t message rest info out in_ inbox reads run =
      rw (out, in_, inbox, reads, run) refl

  -- A process whose schedulers connect one after the other, while the texts of its peer's schedulers
  -- arrive in their order, connects each scheduler to the peer's scheduler of the same number: it has
  -- then sent its own texts in that order, and what follows in the inbox is still to be read. The
  -- schedulers are supposed to fit one by one, the verbs library to succeed, and the texts to be
  -- parsed as what they were dumped from.
  pub init_connections-AllConnected :
      (good : (i k : ℕ) → AllSucceed (w.answers i k)) (i : ℕ) (ss ps : List Scheduler) (t : Tcp)
      (rest : List String)
      → t.send_socket ≡ true
      → t.recv_socket ≡ true
      → t.wire.arriving ≡ texts ps ++ rest
      → AllPaired ss ps
      → AllReadable ps
      → (ss' : List Scheduler) × (init_connections j w i ss t
          ≡ ok
              (ss', record t { wire = record { sent = t.wire.sent ++ texts ss; arriving = rest } }))
        × AllConnected ss ps ss'
  unfolding init_connections
  init_connections-AllConnected good i [] [] t rest out in_ inbox paired readable =
      ([], rw (append-nil, ← inbox) refl, tt)
  init_connections-AllConnected good i [] (p ∷ ps) t rest out in_ inbox paired readable =
      absurd paired
  init_connections-AllConnected good i (s ∷ ss) [] t rest out in_ inbox paired readable =
      absurd paired
  init_connections-AllConnected good i (s ∷ ss) (p ∷ ps) t rest out in_ inbox
        (some_ctx, fit, paired) (reads, readable) =
      let (s', run, linked) = connect-scheduler_info j (w.answers i) (good i) s p some_ctx fit in
      let told = t.wire.sent ++ (w.dump (scheduler_info j s) ∷ []) in
      let t' : Tcp = record t { wire = record { sent = told; arriving = texts ps ++ rest } } in
      let (ss', runs, connected) =
        init_connections-AllConnected good (i + 1) ss ps t' rest out in_ refl paired readable in
      let one =
        init_connection-ok i s s' t (w.dump (scheduler_info j p)) (texts ps ++ rest)
          (scheduler_info j p) out in_ inbox reads run in
      let sum = append_assoc t.wire.sent (w.dump (scheduler_info j s) ∷ []) (texts ss) in
      (s' ∷ ss', rw (one, runs, sum) refl, (linked, connected))
