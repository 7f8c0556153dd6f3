-- ===== src/Nfs4/OpCode/Laws.antt =====
-- The numbers and the names of operations are unambiguous.
use nfs_crust.Prelude.{
  ℕ, String, ◌≢◌, ◌<◌, ◌≡◌, ◌↔◌, refl, sym, ap, ◌∙◌, inl, inr, Option, none, some, List, [], ◌∷◌,
  All, arith, ◌==◌, ==_iff, Bool-cases, if◌then◌else◌,
}
use text.Mathlib.Text.{◌==◌ as str_eq}
use nfs_crust.Prelude.Words.{u32_limit}
use nfs_crust.Result.{ok, panic}
use nfs_crust.Nfs4.OpCode.{OpCode, to_u32, name, from_u32_arms, first_arm, from_u32}

first_arm_sound :
    (f : OpCode → ℕ) (arms : List (ℕ × OpCode)) (n : ℕ) (op : OpCode)
    → All (λ (a : ℕ × OpCode). f a.1 ≡ a.0) arms
    → first_arm n arms ≡ ok op
    → f op ≡ n
unfolding first_arm
first_arm_sound f [] n op h e = cc
first_arm_sound f ((k, o) ∷ arms) n op h e = elim (Bool-cases (n == k)) [
  | inl t ↦ cc (h.0, (==_iff n k).0 t, rw t at e)
  | inr t ↦ first_arm_sound f arms n op h.1 (rw t at e)
]

arms_agree : All (λ (a : ℕ × OpCode). to_u32 a.1 ≡ a.0) from_u32_arms
unfolding to_u32
arms_agree = omega arith

pub from_u32-to_u32 : (op : OpCode) → from_u32 (to_u32 op) ≡ ok op
unfolding from_u32 to_u32
from_u32-to_u32 OpCode.access = refl
from_u32-to_u32 OpCode.close = refl
from_u32-to_u32 OpCode.commit = refl
from_u32-to_u32 OpCode.create = refl
from_u32-to_u32 OpCode.deleg_purge = refl
from_u32-to_u32 OpCode.deleg_return = refl
from_u32-to_u32 OpCode.get_attr = refl
from_u32-to_u32 OpCode.get_fh = refl
from_u32-to_u32 OpCode.link = refl
from_u32-to_u32 OpCode.lock = refl
from_u32-to_u32 OpCode.lock_t = refl
from_u32-to_u32 OpCode.lock_u = refl
from_u32-to_u32 OpCode.lookup = refl
from_u32-to_u32 OpCode.lookup_p = refl
from_u32-to_u32 OpCode.nverify = refl
from_u32-to_u32 OpCode.open_op = refl
from_u32-to_u32 OpCode.open_attr = refl
from_u32-to_u32 OpCode.open_confirm = refl
from_u32-to_u32 OpCode.open_downgrade = refl
from_u32-to_u32 OpCode.put_fh = refl
from_u32-to_u32 OpCode.put_pub_fh = refl
from_u32-to_u32 OpCode.put_root_fh = refl
from_u32-to_u32 OpCode.read = refl
from_u32-to_u32 OpCode.read_dir = refl
from_u32-to_u32 OpCode.read_link = refl
from_u32-to_u32 OpCode.remove = refl
from_u32-to_u32 OpCode.rename = refl
from_u32-to_u32 OpCode.renew = refl
from_u32-to_u32 OpCode.restore_fh = refl
from_u32-to_u32 OpCode.save_fh = refl
from_u32-to_u32 OpCode.sec_info = refl
from_u32-to_u32 OpCode.set_attr = refl
from_u32-to_u32 OpCode.set_client_id = refl
from_u32-to_u32 OpCode.set_client_id_confirm = refl
from_u32-to_u32 OpCode.verify = refl
from_u32-to_u32 OpCode.write = refl
from_u32-to_u32 OpCode.release_lock_owner = refl
from_u32-to_u32 OpCode.backchannel_ctl = refl
from_u32-to_u32 OpCode.bind_conn_to_session = refl
from_u32-to_u32 OpCode.exchange_id = refl
from_u32-to_u32 OpCode.create_session = refl
from_u32-to_u32 OpCode.destroy_session = refl
from_u32-to_u32 OpCode.free_state_id = refl
from_u32-to_u32 OpCode.get_dir_delegation = refl
from_u32-to_u32 OpCode.get_device_info = refl
from_u32-to_u32 OpCode.get_device_list = refl
from_u32-to_u32 OpCode.layout_commit = refl
from_u32-to_u32 OpCode.layout_get = refl
from_u32-to_u32 OpCode.layout_return = refl
from_u32-to_u32 OpCode.sec_info_no_name = refl
from_u32-to_u32 OpCode.sequence = refl
from_u32-to_u32 OpCode.set_ssv = refl
from_u32-to_u32 OpCode.test_state_id = refl
from_u32-to_u32 OpCode.want_delegation = refl
from_u32-to_u32 OpCode.destroy_client_id = refl
from_u32-to_u32 OpCode.reclaim_complete = refl
from_u32-to_u32 OpCode.illegal = refl

-- `from_u32` reads a number as an operation exactly when it is that operation's number.
pub from_u32_iff : (n : ℕ) (op : OpCode) → (from_u32 n ≡ ok op) ↔ (to_u32 op ≡ n)
from_u32_iff n op = (
  λ e. unfold from_u32 in first_arm_sound to_u32 from_u32_arms n op arms_agree e,
  λ e. ap from_u32 (sym e) ∙ from_u32-to_u32 op,
)

of_name : List (ℕ × OpCode) → String → Option OpCode
of_name [] s = none
of_name ((n, op) ∷ arms) s = if str_eq s (name op) then some op else of_name arms s

of_name-name : (op : OpCode) → of_name from_u32_arms (name op) ≡ some op
unfolding of_name name
of_name-name OpCode.access = refl
of_name-name OpCode.close = refl
of_name-name OpCode.commit = refl
of_name-name OpCode.create = refl
of_name-name OpCode.deleg_purge = refl
of_name-name OpCode.deleg_return = refl
of_name-name OpCode.get_attr = refl
of_name-name OpCode.get_fh = refl
of_name-name OpCode.link = refl
of_name-name OpCode.lock = refl
of_name-name OpCode.lock_t = refl
of_name-name OpCode.lock_u = refl
of_name-name OpCode.lookup = refl
of_name-name OpCode.lookup_p = refl
of_name-name OpCode.nverify = refl
of_name-name OpCode.open_op = refl
of_name-name OpCode.open_attr = refl
of_name-name OpCode.open_confirm = refl
of_name-name OpCode.open_downgrade = refl
of_name-name OpCode.put_fh = refl
of_name-name OpCode.put_pub_fh = refl
of_name-name OpCode.put_root_fh = refl
of_name-name OpCode.read = refl
of_name-name OpCode.read_dir = refl
of_name-name OpCode.read_link = refl
of_name-name OpCode.remove = refl
of_name-name OpCode.rename = refl
of_name-name OpCode.renew = refl
of_name-name OpCode.restore_fh = refl
of_name-name OpCode.save_fh = refl
of_name-name OpCode.sec_info = refl
of_name-name OpCode.set_attr = refl
of_name-name OpCode.set_client_id = refl
of_name-name OpCode.set_client_id_confirm = refl
of_name-name OpCode.verify = refl
of_name-name OpCode.write = refl
of_name-name OpCode.release_lock_owner = refl
of_name-name OpCode.backchannel_ctl = refl
of_name-name OpCode.bind_conn_to_session = refl
of_name-name OpCode.exchange_id = refl
of_name-name OpCode.create_session = refl
of_name-name OpCode.destroy_session = refl
of_name-name OpCode.free_state_id = refl
of_name-name OpCode.get_dir_delegation = refl
of_name-name OpCode.get_device_info = refl
of_name-name OpCode.get_device_list = refl
of_name-name OpCode.layout_commit = refl
of_name-name OpCode.layout_get = refl
of_name-name OpCode.layout_return = refl
of_name-name OpCode.sec_info_no_name = refl
of_name-name OpCode.sequence = refl
of_name-name OpCode.set_ssv = refl
of_name-name OpCode.test_state_id = refl
of_name-name OpCode.want_delegation = refl
of_name-name OpCode.destroy_client_id = refl
of_name-name OpCode.reclaim_complete = refl
of_name-name OpCode.illegal = refl

-- Two operations of one name are one operation.
pub name-injective : (a b : OpCode) → name a ≡ name b → a ≡ b
name-injective a b h = cc (of_name-name a, of_name-name b, h)

pub to_u32-lt : (op : OpCode) → to_u32 op < u32_limit
unfolding to_u32
to_u32-lt OpCode.access = omega arith
to_u32-lt _ = omega arith

first_arm-ne-panic : (n : ℕ) (arms : List (ℕ × OpCode)) → first_arm n arms ≢ panic
unfolding first_arm
first_arm-ne-panic n [] e = ground arith
first_arm-ne-panic n ((k, op) ∷ arms) e = elim (Bool-cases (n == k)) [
  | inl t ↦ ground arith
  | inr t ↦ first_arm-ne-panic n arms (rw t at e)
]

pub from_u32-ne-panic : (n : ℕ) → from_u32 n ≢ panic
unfolding from_u32
from_u32-ne-panic n = first_arm-ne-panic n from_u32_arms
