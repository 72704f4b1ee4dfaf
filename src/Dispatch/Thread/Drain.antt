-- ===== src/Dispatch/Thread/Drain.antt =====
-- The inner loop of the dispatching thread comes to its end.
use dlslime.Prelude.{
  ℕ, ◌+◌, ◌≤◌, ◌<◌, ◌≡◌, ◌≢◌, refl, ap, sym, subst, ◌∙◌, ◌⊎◌, inl, inr, true, false, some, List, [],
  ◌∷◌, length, ok, arith, add32,
}
use dlslime.Assignment.{read}
use dlslime.MemoryPool.{MemoryPool}
use dlslime.RdmaInfo.{max_send_wr}
use dlslime.Store.{Store, Cell, cell, acquire, release}
use dlslime.Store.Frame.{cell-acquire, cell-release}
use dlslime.Context.{Qp}
use dlslime.WorkRequest.Batch.{AllKnown}
use dlslime.Dispatch.Window.{fits_window_iff, add32-exact}
use dlslime.Dispatch.Forward.{IsReady, after_pop, dispatch_front-read}
use dlslime.Dispatch.Thread.{Shared, Turn, emptied, is_empty, drain}

-- Each assignment in the queue, by its place and its number of reads.
abbrev pub Items : Type 0
Items = List (ℕ × ℕ)

abbrev pub ids : Items → List ℕ
ids [] = []
ids ((id, n) ∷ items) = id ∷ ids items

abbrev pub reads : Items → ℕ
reads [] = 0
reads ((id, n) ∷ items) = n + reads items

abbrev pub Holds : ℕ → List ℕ → Type 0
Holds id [] = ⊥
Holds id (i ∷ rest) = (id ≡ i) ⊎ Holds id rest

-- No assignment stands in the queue twice.
abbrev pub Apart : Items → Type 0
Apart [] = Unit
Apart ((id, n) ∷ items) = ¬ (Holds id (ids items)) × Apart items

-- Some reads of registered keys.
pub record IsRead (p : MemoryPool) (s : Store) (id n : ℕ) : Type 0 where
  pub held : Cell
  pub here : cell s id ≡ some held
  pub opcode : held.object.opcode ≡ read
  pub size : held.object.batch_size ≡ n
  pub long : length held.object.batch ≡ n
  pub some_work : 0 < n
  pub known : AllKnown p held.object.batch

abbrev pub AllRead : MemoryPool → Store → Items → Type 0
AllRead p s [] = Unit
AllRead p s ((id, n) ∷ items) = IsRead p s id n × AllRead p s items

-- Between two rounds the others leave the queue and what stands in it alone, and give back slots at
-- most.
pub record IsCalm (turn : Turn) : Type 0 where
  pub queue : (sh : Shared) → (turn.others sh).qp.assign_queue ≡ sh.qp.assign_queue
  pub count :
      (sh : Shared) → (turn.others sh).qp.outstanding_rdma_reads ≤ sh.qp.outstanding_rdma_reads
  pub cells :
      (sh : Shared) (id : ℕ)
      → Holds id sh.qp.assign_queue
      → cell (turn.others sh).store id ≡ cell sh.store id

abbrev pub AllCalm : List Turn → Type 0
AllCalm [] = Unit
AllCalm (turn ∷ turns) = IsCalm turn × AllCalm turns

pub cell-after_pop_other : (s : Store) (id j : ℕ) → id ≢ j → cell (after_pop s id) j ≡ cell s j
cell-after_pop_other s id j other = ground (
  arith,
  cell-release (release (acquire s id) id) id j,
  cell-release (acquire s id) id j,
  cell-acquire s id j,
)

AllRead-kept :
    (p : MemoryPool) (s s' : Store) (items : Items)
    → ((id : ℕ) → Holds id (ids items) → cell s' id ≡ cell s id)
    → AllRead p s items
    → AllRead p s' items
AllRead-kept p s s' [] kept h = tt
AllRead-kept p s s' ((id, n) ∷ items) kept (h, hs) = (
  record {
    held = h.held;
    here = kept id (inl refl) ∙ h.here;
    opcode = h.opcode;
    size = h.size;
    long = h.long;
    some_work = h.some_work;
    known = h.known;
  },
  AllRead-kept p s s' items (λ i k. kept i (inr k)) hs,
)

IsRead-IsReady :
    (p : MemoryPool) (q : Qp) (s : Store) (id n : ℕ) (rest : List ℕ) (h : IsRead p s id n)
    → q.assign_queue ≡ id ∷ rest
    → q.outstanding_rdma_reads + n < max_send_wr
    → IsReady p q s id rest h.held
IsRead-IsReady p q s id n rest h front room = record {
  front = front;
  here = h.here;
  opcode = h.opcode;
  size = h.size ∙ sym h.long;
  some_work = omega (arith, h.long, h.some_work);
  known = h.known;
  small = omega (arith, h.size);
  room =
      (fits_window_iff h.held.object.batch_size q (omega (arith, h.size)) (omega arith)).1
        (omega (arith, h.size));
}

module _ (p : MemoryPool) (qpi : ℕ) where
  drain_step :
      (turn : Turn) (turns : List Turn) (sh : Shared) (id n : ℕ) (items : Items)
      → sh.qp.assign_queue ≡ id ∷ ids items
      → sh.qp.outstanding_rdma_reads + n < max_send_wr
      → IsRead p sh.store id n
      → drain p qpi (turn ∷ turns) sh
        ≡ drain p qpi turns (
            turn.others (record {
              qp = record (sh.qp) {
                outstanding_rdma_reads = sh.qp.outstanding_rdma_reads + n;
                assign_queue = ids items;
              };
              store = after_pop sh.store id;
            }))
  unfolding drain
  drain_step turn turns sh id n items front room h =
      let ready = IsRead-IsReady p sh.qp sh.store id n (ids items) h front room in
      let (wrs, run, are_reads) =
        dispatch_front-read p qpi sh.qp sh.store turn.ret id (ids items) h.held ready in
      let some_left : is_empty sh.qp.assign_queue ≡ false = rw front refl in
      let sum : add32 sh.qp.outstanding_rdma_reads (length h.held.object.batch)
          ≡ sh.qp.outstanding_rdma_reads + n =
        ap (add32 sh.qp.outstanding_rdma_reads) h.long ∙ add32-exact n sh.qp (omega arith) in
      rw (drain, some_left, run, sum) refl

  -- With room in the window for everything that waits, the inner loop comes to its end: if reads of
  -- registered keys wait, none of them twice, then after at most as many rounds as there are
  -- assignments the queue is empty, and no more slots are taken than those reads need besides the
  -- slots that were taken before. This holds whatever the verbs library returns, as long as the other
  -- threads leave the queue and what waits in it alone between the rounds, and only give back slots.
  pub drain-emptied :
      (items : Items) (turns : List Turn) (sh : Shared)
      → sh.qp.assign_queue ≡ ids items
      → AllRead p sh.store items
      → Apart items
      → sh.qp.outstanding_rdma_reads + reads items < max_send_wr
      → length items ≤ length turns
      → AllCalm turns
      → (sh' : Shared) × (drain p qpi turns sh ≡ ok (emptied sh'))
        × (sh'.qp.assign_queue ≡ [])
        × (sh'.qp.outstanding_rdma_reads ≤ sh.qp.outstanding_rdma_reads + reads items)
  unfolding drain
  drain-emptied [] [] sh front waits apart room enough calm =
      let none_left : is_empty sh.qp.assign_queue ≡ true = rw front refl in
      (sh, rw (drain, none_left) refl, front, omega arith)
  drain-emptied [] (turn ∷ turns) sh front waits apart room enough calm =
      let none_left : is_empty sh.qp.assign_queue ≡ true = rw front refl in
      (sh, rw (drain, none_left) refl, front, omega arith)
  drain-emptied ((id, n) ∷ items) [] sh front waits apart room enough calm = absurd (omega arith)
  drain-emptied ((id, n) ∷ items) (turn ∷ turns) sh front (h, waits) (alone, apart) room enough
        (calm, calms) =
      let after : Shared = record {
        qp = record (sh.qp) {
          outstanding_rdma_reads = sh.qp.outstanding_rdma_reads + n;
          assign_queue = ids items;
        };
        store = after_pop sh.store id;
      } in
      let kept : (i : ℕ)
          → Holds i (ids items)
          → cell (turn.others after).store i ≡ cell sh.store i =
        λ i k.
          calm.cells after i k
          ∙ cell-after_pop_other sh.store id i
              (λ e. alone (subst (λ x. Holds x (ids items)) (sym e) k)) in
      let (sh', run, done, slots) =
        drain-emptied items turns (turn.others after) (calm.queue after)
          (AllRead-kept p sh.store (turn.others after).store items kept waits) apart
          (omega (arith, calm.count after)) (omega arith) calms in
      (
        sh',
        drain_step turn turns sh id n items front (omega arith) h ∙ run,
        done,
        omega (arith, slots, calm.count after),
      )
