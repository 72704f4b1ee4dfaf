-- ===== src/RdmaInfo.antt =====
-- csrc/engine/rdma/rdma_config.h: the limits of a queue pair, and what two peers tell each other
-- of theirs.
pub mod Exchange
mod Tests
use dlslime.Prelude.{ℕ, ◌≡◌, String, [], ◌∷◌, Result, ok, or_fault, ◌>>=◌, json_error, ℤ}
use dlslime.Json.{JsonLib}

abbrev pub max_send_wr : ℕ
max_send_wr = 8192

abbrev pub max_recv_wr : ℕ
max_recv_wr = 8192

abbrev pub poll_count : ℕ
poll_count = 256

-- `ibv_gid`, by its `global` view.
pub record Gid : Type 0 where
  pub subnet_prefix : ℕ
  pub interface_id : ℕ

pub record RdmaInfo : Type 0 where
  pub qpn : ℕ
  pub gid : Gid
  pub gidx : ℤ
  pub lid : ℕ
  pub psn : ℕ
  pub mtu : ℕ

module _ (j : JsonLib) where
  open j use {Json, num, int, object, get_field, get_uint, get_int64}

  -- `json_config[key]`, converted to an unsigned type of so many bits.
  unfoldable pub uint_field : ℕ → Json → String → Result ℕ
  uint_field width v k = do
    field ← or_fault json_error (get_field v k)
    or_fault json_error (get_uint width field)

  -- `rdma_info(json json_config)`
  unfoldable pub rdma_info_of_json : Json → Result RdmaInfo
  rdma_info_of_json config = do
    gid ← or_fault json_error (get_field config "gid")
    prefix ← uint_field 64 gid "subnet_prefix"
    id ← uint_field 64 gid "interface_id"
    gidx_field ← or_fault json_error (get_field config "gidx")
    gidx ← or_fault json_error (get_int64 gidx_field)
    lid ← uint_field 16 config "lid"
    qpn ← uint_field 32 config "qpn"
    psn ← uint_field 64 config "psn"
    mtu ← uint_field 64 config "mtu"
    ok (record {
      qpn = qpn;
      gid = record { subnet_prefix = prefix; interface_id = id };
      gidx = gidx;
      lid = lid;
      psn = psn;
      mtu = mtu;
    })

  unfoldable pub to_json : RdmaInfo → Json
  to_json r =
      let gid_config = object (
        ("subnet_prefix", num r.gid.subnet_prefix)
        ∷ ("interface_id", num r.gid.interface_id)
        ∷ []) in
      object (
        ("gid", gid_config)
        ∷ ("gidx", int r.gidx)
        ∷ ("lid", num r.lid)
        ∷ ("qpn", num r.qpn)
        ∷ ("psn", num r.psn)
        ∷ ("mtu", num r.mtu)
        ∷ [])
