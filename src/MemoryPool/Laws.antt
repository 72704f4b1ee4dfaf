-- ===== src/MemoryPool/Laws.antt =====
-- Registering, removing and finding regions by their key.
use dlslime.Prelude.{
  ℕ, ◌≡◌, refl, String, str_eq, none, some, ok, arith, lookup-insert, lookup-erase, if◌then◌else◌,
}
use dlslime.MemoryPool.{
  MemoryPool, Mr, RegMr, default_remote_mr, access_rights, register_memory_region,
  unregister_memory_region, unregister_remote_memory_region, get_mr, get_remote_mr,
}

-- A region that the verbs library registers is found under its key, every other key finds what it
-- found before, and the peer's regions stay as they are.
pub get_mr-register_memory_region :
    (reg_mr : RegMr) (p : MemoryPool) (k i : String) (data_ptr length : ℕ) (m : Mr)
    → reg_mr p.pd data_ptr length access_rights ≡ some m
    → (q : MemoryPool) × (register_memory_region reg_mr p k data_ptr length ≡ ok q)
      × (get_mr q i ≡ (if str_eq k i then some m else get_mr p i))
      × (get_remote_mr q i ≡ get_remote_mr p i)
unfolding register_memory_region get_mr get_remote_mr
get_mr-register_memory_region reg_mr p k i data_ptr length m h =
    (record p { mrs = _ }, ground arith, lookup-insert k i m p.mrs, refl)

-- Removing a key makes it unknown, in its own table and in no other; every other key keeps its
-- region. The removal of a peer's region leaves the default region, of length 0, in its place.
pub get_mr-unregister :
    (p : MemoryPool) (k i : String)
    → (get_mr (unregister_memory_region p k) i ≡ (if str_eq k i then none else get_mr p i))
      × (get_remote_mr (unregister_memory_region p k) i ≡ get_remote_mr p i)
      × (get_remote_mr (unregister_remote_memory_region p k) i
          ≡ (if str_eq k i then default_remote_mr else get_remote_mr p i))
      × (get_mr (unregister_remote_memory_region p k) i ≡ get_mr p i)
unfolding unregister_memory_region unregister_remote_memory_region get_mr get_remote_mr
get_mr-unregister p k i =
    (lookup-erase k i p.mrs, refl, ground (arith, lookup-erase k i p.remote_mrs), refl)
