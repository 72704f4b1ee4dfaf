-- ===== src/Bench/Transfer/Rounds.antt =====
-- The initiator's loop: how long it goes on, and what it counts.
use native.Mathlib.Nat.{suc-mul, add-mul}
use dlslime.Prelude.{
  ℕ, zero, suc, ◌+◌, ◌*◌, ◌%◌, ◌^◌, ◌<◌, ◌≤◌, ◌≡◌, refl, ◌∙◌, ap, true, false, Option, none, some,
  List, [], ◌∷◌, ◌++◌, length, ok, arith, ltb, lt→ltb, add64,
}
use dlslime.Assignment.{read}
use dlslime.Store.{Store, query}
use dlslime.Store.Dump.{wait}
use dlslime.Context.{Context, qp_list_len}
use dlslime.Bench.Memory.{used_size}
use dlslime.Bench.Held.{IsHeld, AllHeld, submit-AllHeld}
use dlslime.Bench.Transfer.{
  Flags, World, Running, batch_from, submit_all, served, release_all, wait_each, round, rounds,
  deadline,
}

length-batch_from : (key : _) (b n i : ℕ) → length (batch_from key b n i) ≡ n
unfolding batch_from
length-batch_from key b zero i = refl
length-batch_from key b (suc n) i = ap suc (length-batch_from key b n (i + 1))

-- What the threads and the hardware do while the client waits: assignments that the client holds stay
-- where they are, the one that is waited for gets finished, and no queue pair goes away.
pub record Serves {Json : Type 0} (w : World Json) : Type 0 where
  pub keeps :
      (c : Context) (s : Store) (batch : List (Option ℕ)) (id : ℕ)
      → AllHeld s batch
      → AllHeld (w.serve c s batch id).1 batch
  pub finishes :
      (c : Context) (s : Store) (batch : List (Option ℕ)) (id : ℕ)
      → AllHeld s batch
      → IsHeld s (some id)
      → query (w.serve c s batch id).1 id ≡ ok true
  pub qps :
      (c : Context) (s : Store) (batch : List (Option ℕ)) (id : ℕ)
      → length (w.serve c s batch id).0.qp_management ≡ length c.qp_management

abbrev used : Flags → ℕ
used f = used_size f.batch_size f.block_size

-- The totals after `n` more trips.
pub record Counted (f : Flags) (n : ℕ) (r r' : Running) : Type 0 where
  pub qps : length r'.context.qp_management ≡ qp_list_len
  pub bytes : r'.total_bytes ≡ (r.total_bytes + n * used f) % 2 ^ 64
  pub trips : r'.total_trips ≡ (r.total_trips + n) % 2 ^ 64

pub record IsRunning (r : Running) : Type 0 where
  pub qps : length r.context.qp_management ≡ qp_list_len
  pub bytes : r.total_bytes < 2 ^ 64
  pub trips : r.total_trips < 2 ^ 64

module _ (f : Flags) (some_work : 0 < f.batch_size) where
  submit_all-Counted :
      (n : ℕ) (r : Running) (batch : List (Option ℕ))
      → IsRunning r
      → AllHeld r.store batch
      → (r' : Running) × (batch' : List (Option ℕ)) × (submit_all f n r batch ≡ ok (r', batch'))
        × AllHeld r'.store batch'
        × Counted f n r r'
  unfolding submit_all
  submit_all-Counted zero r batch v held = (
    r,
    batch,
    refl,
    held,
    record { qps = v.qps; bytes = omega (arith, v.bytes); trips = omega (arith, v.trips) },
  )
  submit_all-Counted (suc n) r batch v held =
      let work = batch_from "buffer" f.block_size f.batch_size 0 in
      let some_left : 0 < length work =
        omega (arith, length-batch_from "buffer" f.block_size f.batch_size 0) in
      let (s, run, qps, kept) =
        submit-AllHeld r.context r.store read work batch v.qps some_left held in
      let next : Running = record {
        context = s.context;
        store = s.store;
        total_bytes = add64 r.total_bytes (used f);
        total_trips = add64 r.total_trips 1;
      } in
      let (r', batch', runs, kept', c) =
        submit_all-Counted n next (batch ++ (s.result ∷ []))
          (record { qps = qps; bytes = omega arith; trips = omega arith }) kept in
      let more = suc-mul n (used f) in
      (
        r',
        batch',
        rw run runs,
        kept',
        record {
          qps = c.qps;
          bytes = omega (arith, c.bytes, more);
          trips = omega (arith, c.trips);
        },
      )

module _ {Json : Type 0} (w : World Json) (serves : Serves w) where
  -- `ids` is the end of `batch` that is still to be waited for.
  wait_each-ok :
      (batch ids : List (Option ℕ)) (r : Running)
      → AllHeld r.store batch
      → AllHeld r.store ids
      → ((s : Store) → AllHeld s batch → AllHeld s ids)
      → (r' : Running) × (wait_each w batch ids r ≡ ok r')
        × (length r'.context.qp_management ≡ length r.context.qp_management)
        × (r'.total_bytes ≡ r.total_bytes)
        × (r'.total_trips ≡ r.total_trips)
  unfolding wait_each served wait
  wait_each-ok batch [] r held left part = (r, refl, refl, refl, refl)
  wait_each-ok batch (none ∷ ids) r held (h, left) part = absurd h
  wait_each-ok batch (some id ∷ ids) r held (h, left) part =
      let s = (w.serve r.context r.store batch id).1 in
      let kept = serves.keeps r.context r.store batch id held in
      let (r', run, qps, bytes, trips) =
        wait_each-ok batch ids (served w r batch (some id)) kept (part s kept).1
          (λ s' h'. (part s' h').1) in
      (
        r',
        rw (serves.finishes r.context r.store batch id held h) run,
        qps ∙ serves.qps r.context r.store batch id,
        bytes,
        trips,
      )

  module _ (f : Flags) (some_work : 0 < f.batch_size) where
    round-Counted :
        (r : Running)
        → IsRunning r
        → (r' : Running) × (round w f r ≡ ok r') × Counted f f.concurrent_num r r'
    unfolding round
    round-Counted r v =
        let (r₁, batch, submitted, held, c) =
          submit_all-Counted f some_work f.concurrent_num r [] v tt in
        let (r₂, waited, qps, bytes, trips) = wait_each-ok batch batch r₁ held held (λ s h. h) in
        (
          record r₂ { store = release_all batch r₂.store },
          rw submitted (rw waited refl),
          record { qps = qps ∙ c.qps; bytes = bytes ∙ c.bytes; trips = trips ∙ c.trips },
        )

    Counted-IsRunning : (n : ℕ) (r r' : Running) → Counted f n r r' → IsRunning r'
    Counted-IsRunning n r r' c = record {
      qps = c.qps;
      bytes = omega (arith, c.bytes);
      trips = omega (arith, c.trips);
    }

    -- If the threads and the hardware finish what is waited for, the batch is not empty, and the clock
    -- is before the deadline at its first `n` readings and not at the next, then the loop ends after
    -- exactly `n` rounds; any fuel above `n` is enough. Every round counts `concurrent_num` trips and
    -- as many times the size of a batch, modulo 2^64.
    pub rounds-Counted :
        (n k fuel : ℕ) (r : Running)
        → n < fuel
        → ((i : ℕ) → i < n → w.clock (k + i) < deadline w f)
        → deadline w f ≤ w.clock (k + n)
        → IsRunning r
        → (r' : Running) × (rounds w f fuel k r ≡ ok r') × Counted f (n * f.concurrent_num) r r'
    unfolding rounds
    rounds-Counted n k zero r enough early late v = absurd (omega arith)
    rounds-Counted zero k (suc fuel) r enough early late v =
        let same : k + 0 ≡ k = omega arith in
        let over : ltb (w.clock k) (deadline w f) ≡ false = ground (arith, rw same at late) in
        (
          r,
          rw (rounds, over) refl,
          record { qps = v.qps; bytes = omega (arith, v.bytes); trips = omega (arith, v.trips) },
        )
    rounds-Counted (suc n) k (suc fuel) r enough early late v =
        let same : k + 0 ≡ k = omega arith in
        let shift : (i : ℕ) → k + suc i ≡ k + 1 + i = λ i. omega arith in
        let before : ltb (w.clock k) (deadline w f) ≡ true =
          lt→ltb (w.clock k) (deadline w f) (rw same at (early 0 (omega arith))) in
        let (r₁, run, c) = round-Counted r v in
        let (r', runs, c') =
          rounds-Counted n (k + 1) fuel r₁ (omega arith)
            (λ i h. rw (shift i) at (early (suc i) (omega arith))) (rw (shift n) at late)
            (Counted-IsRunning f.concurrent_num r r₁ c) in
        let m = f.concurrent_num in
        let more : suc n * m * used f ≡ n * m * used f + m * used f =
          ap (λ l. l * used f) (suc-mul n m) ∙ add-mul (n * m) m (used f) in
        (
          r',
          rw (rounds, before, run) runs,
          record {
            qps = c'.qps;
            bytes = omega (arith, c.bytes, c'.bytes, more);
            trips = omega (arith, c.trips, c'.trips, suc-mul n f.concurrent_num);
          },
        )
