-- ===== src/AddrAdv.antt =====
-- plugins/path_managers/addr_adv.c: a plugin that advertises every local address, and keeps the
-- limit on subflows in step with their number.
pub mod Subflows
mod Tests
use mptcpd.Common.{
  ℕ, ◌+◌, ◌-◌, ◌/◌, ◌%◌, ◌^◌, Bool, true, false, ◌||◌, not, Option, none, some, List, [], ◌∷◌, ℤ,
  pos, negsuc, less, ltb, ◌==◌, if◌then◌else◌,
}
use mptcpd.IdManager.{Idm, idm_get_id, idm_remove_id}
use mptcpd.IdManager
use mptcpd.PathManager.{Pm, Limit, kpm_set_limits, kpm_add_addr, kpm_remove_addr}
use mptcpd.Sockaddr.{Sockaddr}

-- MPTCP_MIN_SUBFLOWS and MPTCP_MAX_SUBFLOWS.
abbrev pub min_subflows : ℤ
min_subflows = pos 2

abbrev pub max_subflows : ℤ
max_subflows = pos 8

-- MPTCPD_LIMIT_RCV_ADD_ADDRS and MPTCPD_LIMIT_SUBFLOWS.
abbrev pub limit_rcv_add_addrs : ℕ
limit_rcv_add_addrs = 0

abbrev pub limit_subflows : ℕ
limit_subflows = 1

-- MPTCPD_ADDR_FLAG_SUBFLOW, the bit of number 1.
abbrev pub has_subflow_flag : ℕ → Bool
has_subflow_flag flags = flags / 2 % 2 == 1

-- A `uint32_t` plus an `int`, and its conversion to `int`.
unfoldable pub add_int : ℕ → ℤ → ℕ
add_int n (pos d) = (n + d) % 2 ^ 32
add_int n (negsuc d) = (n + (2 ^ 32 - 1 - d)) % 2 ^ 32

unfoldable pub to_int : ℕ → ℤ
to_int n = if ltb n (2 ^ 31) then pos n else negsuc (2 ^ 32 - 1 - n)

-- The limits of the static array, the first for subflows and the second for announced addresses.
pub record Limits : Type 0 where
  pub subflows : ℕ
  pub add_addrs : ℕ

-- The array before `addr_adv_init`.
abbrev pub no_limits : Limits
no_limits = record { subflows = 0; add_addrs = 0 }

abbrev pub limit_list : Limits → List Limit
limit_list l = (limit_subflows, l.subflows) ∷ (limit_rcv_add_addrs, l.add_addrs) ∷ []

module _ (p : IdManager.Platform) (W : Type 0) (pm : Pm W) (addr_flags : ℕ) where
  -- What the plugin changes: its limits, the ID manager of the path manager, and the world.
  pub record State : Type 0 where
    pub limits : Limits
    pub idm : Idm p
    pub world : W

  -- The limits after `_limits[0].limit += delta`.
  unfoldable pub new_limits : Limits → ℤ → Limits
  unfolding add_int to_int
  new_limits l delta =
      let subflows = add_int l.subflows delta in
      let moved = record l { subflows = subflows } in
      if less (to_int subflows) min_subflows || less max_subflows (to_int subflows)
      then moved
      else if has_subflow_flag addr_flags
      then record moved { add_addrs = subflows }
      else moved

  unfoldable pub update_limits : Limits → ℤ → W → Limits × W
  unfolding new_limits
  update_limits l delta w =
      let subflows = to_int (add_int l.subflows delta) in
      let l' = new_limits l delta in
      let sent = kpm_set_limits W (some pm) (some (limit_list l')) 2 w in
      if less subflows min_subflows || less max_subflows subflows then (l', w) else (l', sent.0)

  -- `idm_get_id` and `idm_remove_id` on a manager that is there.
  abbrev pub manager : Option (Idm p) → Idm p → Idm p
  manager none idm = idm
  manager (some idm') idm = idm'

  -- `addr_adv_new_local_address`, for an interface of the given index.
  unfoldable pub new_local_address : ℤ → Sockaddr → State → State
  unfolding update_limits
  new_local_address index sa s =
      let got = idm_get_id p (some s.idm) (some sa) in
      let s' = record s { idm = manager got.0 s.idm } in
      let updated = update_limits s.limits (pos 1) s.world in
      let added = kpm_add_addr W (some pm) (some sa) got.1 addr_flags index updated.1 in
      if got.1 == 0 then s' else record s' { limits = updated.0; world = added.0 }

  -- `addr_adv_delete_local_address`; the interface is not read.
  unfoldable pub delete_local_address : Sockaddr → State → State
  unfolding update_limits
  delete_local_address sa s =
      let removed = idm_remove_id p (some s.idm) (some sa) in
      let s' = record s { idm = manager removed.0 s.idm } in
      let updated = update_limits s.limits (negsuc 0) s.world in
      let withdrawn = kpm_remove_addr W (some pm) removed.1 updated.1 in
      if removed.1 == 0 then s' else record s' { limits = updated.0; world = withdrawn.0 }

  -- `addr_adv_init`, up to the registration of the plugin.
  unfoldable pub init : Idm p → W → State
  unfolding update_limits
  init idm w =
      let updated = update_limits no_limits min_subflows w in
      record { limits = updated.0; idm = idm; world = updated.1 }
