-- ===== src/Bench/Transfer/Ends.antt =====
-- What it means that a process of the benchmark has ended well.
use dlslime.Prelude.{
  ℕ, ◌%◌, ◌<◌, ◌≡◌, sym, ap, ◌∙◌, String, some, List, [], ◌∷◌, ◌++◌, get_elem?, pos, ok, arith,
  append_assoc, >>=-eq-ok, ok-injective, u8, or_fault, json_error,
}
use dlslime.Json.{JsonLib}
use dlslime.Store.{empty_store}
use dlslime.Context.{Context, new_context, register_memory_region, endpoint_info}
use dlslime.Context.Init.{init}
use dlslime.Context.Connect
use dlslime.Context.Lifecycle.{launch_future}
use dlslime.Bench.Memory.{used_size, check_from-ok}
use dlslime.Bench.Wire.{Wire, send, recv}
use dlslime.Bench.Transfer.{
  Flags, World, Running, assert, memory_allocate_initiator, check_initiator_copied, rounds,
}
use dlslime.Bench.Transfer.Session.{Linked, Ended, is_zero, connect, initiator}

recv-ok_of :
    (sent arriving : List String) {message : String} {w' : Wire}
    → recv (record { sent = sent; arriving = arriving }) ≡ ok (message, w')
    → (arriving ≡ message ∷ w'.arriving) × (w'.sent ≡ sent)
unfolding recv
recv-ok_of sent [] h = cc
recv-ok_of sent (m ∷ rest) {message} {w'} h =
    let e = ok-injective h in
    let first : m ≡ message = ap (λ (r : String × Wire). r.0) e in
    let left : record { sent = sent; arriving = rest } ≡ w' = ap (λ (r : String × Wire). r.1) e in
    (
      ap (λ x. x ∷ rest) first ∙ ap (λ (w : Wire). message ∷ w.arriving) left,
      sym (ap (λ (w : Wire). w.sent) left),
    )

recv-ok :
    (w : Wire) {message : String} {w' : Wire}
    → recv w ≡ ok (message, w')
    → (w.arriving ≡ message ∷ w'.arriving) × (w'.sent ≡ w.sent)
recv-ok w h = recv-ok_of w.sent w.arriving h

-- The loop as it starts.
abbrev started : Context → Running
started c = record {
  context = launch_future c;
  store = empty_store;
  total_bytes = 0;
  total_trips = 0;
}

module _ (j : JsonLib) (w : World j.Json) where
  -- A connection tells the peer of the context, and reads one message.
  connect-ok :
      (c : Context) (wire : Wire) {l : Linked}
      → connect j w c wire ≡ ok l
      → (l.wire.sent ≡ wire.sent ++ (w.dump (endpoint_info j c) ∷ []))
        × (message : String) × (wire.arriving ≡ message ∷ l.wire.arriving)
  unfolding connect send
  connect-ok c wire h =
      let ((message, told), heard, more) = >>=-eq-ok (recv _) _ h in
      let (remote, parsed, more') = >>=-eq-ok (or_fault json_error (w.parse message)) _ more in
      let (r, run, made) = >>=-eq-ok (Connect.connect j w.answers c remote) _ more' in
      let (inbox, outbox) = recv-ok _ heard in
      let same = ap (λ (l : Linked). l.wire) (ok-injective made) in
      (
        sym (ap (λ (u : Wire). u.sent) same) ∙ outbox,
        message,
        inbox ∙ ap (λ (u : Wire). message ∷ u.arriving) same,
      )

  -- An initiator of the benchmark that ends without a fault ends with 0, after it has compared every
  -- byte that a batch takes of its buffer. By then it has told its peer two things, the description of
  -- a context and TERMINATE, and has read one message.
  pub initiator-ok :
      (f : Flags) (wire : Wire) (e : Ended)
      → initiator j w f wire ≡ ok e
      → (e.code ≡ pos 0)
        × (c : Context) × (e.wire.sent
            ≡ wire.sent ++ (w.dump (endpoint_info j c) ∷ "TERMINATE" ∷ []))
        × (message : String) × (wire.arriving ≡ message ∷ e.wire.arriving)
        × (block : _) × (memory_allocate_initiator f (w.malloc f.buffer_size) ≡ ok block)
        × ((k : ℕ)
            → k < used_size f.batch_size f.block_size
            → get_elem? (w.memory block) k ≡ some (k % 128))
  unfolding initiator send check_initiator_copied
  initiator-ok f wire e h =
      let (i, made, h₁) =
        >>=-eq-ok
          (init w.verbs w.fuel w.gid (new_context w.unset) f.device_name (u8 f.ib_port) f.link_type)
          _ h in
      let (block, allocated, h₂) =
        >>=-eq-ok (memory_allocate_initiator f (w.malloc f.buffer_size)) _ h₁ in
      let (c, registered, h₃) =
        >>=-eq-ok (register_memory_region w.reg_mr i.context "buffer" block.addr f.buffer_size) _
          h₂ in
      let (l, linked, h₄) = >>=-eq-ok (connect j w c wire) _ h₃ in
      let (u, connected, h₅) = >>=-eq-ok (assert (is_zero l.code)) _ h₄ in
      let (r, looped, h₆) = >>=-eq-ok (rounds w f w.fuel 1 (started l.context)) _ h₅ in
      let (copied, checked, h₇) = >>=-eq-ok (check_initiator_copied f (w.memory block)) _ h₆ in
      let (v, same, end) = >>=-eq-ok (assert copied) _ h₇ in
      let (out, message, inbox) = connect-ok c wire linked in
      let last = ok-injective end in
      let closed = ap (λ (x : Ended). x.wire) last in
      (
        sym (ap (λ (x : Ended). x.code) last),
        c,
        sym (ap (λ (u : Wire). u.sent) closed)
            ∙ ap (λ l. l ++ ("TERMINATE" ∷ [])) out
            ∙ append_assoc wire.sent (w.dump (endpoint_info j c) ∷ []) ("TERMINATE" ∷ []),
        message,
        inbox ∙ ap (λ (u : Wire). message ∷ u.arriving) closed,
        block,
        allocated,
        λ k inside.
            check_from-ok (used_size f.batch_size f.block_size) 0 (w.memory block) checked k
              (omega arith) (omega arith),
      )
