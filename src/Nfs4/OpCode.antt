-- ===== src/Nfs4/OpCode.antt =====
-- src/nfs4.rs: the operation codes of NFSv4.1, their numbers and names. Rust's `Open` is spelled
-- `open_op`. The arms of the `match` in `from_u32` are the table `from_u32_arms`, tried in order.
pub mod Laws
use nfs_crust.Prelude.{ℕ, String, List, [], ◌∷◌, ◌==◌, if◌then◌else◌}
use nfs_crust.Result.{Result, ok, err}
use nfs_crust.Error.{Error}

pub data OpCode : Type 0 where
  access close commit create deleg_purge deleg_return get_attr get_fh link lock lock_t lock_u :
      OpCode
  lookup lookup_p nverify open_op open_attr open_confirm open_downgrade put_fh put_pub_fh : OpCode
  put_root_fh read read_dir read_link remove rename renew restore_fh save_fh sec_info set_attr :
      OpCode
  set_client_id set_client_id_confirm verify write release_lock_owner backchannel_ctl : OpCode
  bind_conn_to_session exchange_id create_session destroy_session free_state_id : OpCode
  get_dir_delegation get_device_info get_device_list layout_commit layout_get layout_return : OpCode
  sec_info_no_name sequence set_ssv test_state_id want_delegation destroy_client_id : OpCode
  reclaim_complete illegal : OpCode

-- `op as u32`
unfoldable pub to_u32 : OpCode → ℕ
to_u32 access = 3
to_u32 close = 4
to_u32 commit = 5
to_u32 create = 6
to_u32 deleg_purge = 7
to_u32 deleg_return = 8
to_u32 get_attr = 9
to_u32 get_fh = 10
to_u32 link = 11
to_u32 lock = 12
to_u32 lock_t = 13
to_u32 lock_u = 14
to_u32 lookup = 15
to_u32 lookup_p = 16
to_u32 nverify = 17
to_u32 open_op = 18
to_u32 open_attr = 19
to_u32 open_confirm = 20
to_u32 open_downgrade = 21
to_u32 put_fh = 22
to_u32 put_pub_fh = 23
to_u32 put_root_fh = 24
to_u32 read = 25
to_u32 read_dir = 26
to_u32 read_link = 27
to_u32 remove = 28
to_u32 rename = 29
to_u32 renew = 30
to_u32 restore_fh = 31
to_u32 save_fh = 32
to_u32 sec_info = 33
to_u32 set_attr = 34
to_u32 set_client_id = 35
to_u32 set_client_id_confirm = 36
to_u32 verify = 37
to_u32 write = 38
to_u32 release_lock_owner = 39
to_u32 backchannel_ctl = 40
to_u32 bind_conn_to_session = 41
to_u32 exchange_id = 42
to_u32 create_session = 43
to_u32 destroy_session = 44
to_u32 free_state_id = 45
to_u32 get_dir_delegation = 46
to_u32 get_device_info = 47
to_u32 get_device_list = 48
to_u32 layout_commit = 49
to_u32 layout_get = 50
to_u32 layout_return = 51
to_u32 sec_info_no_name = 52
to_u32 sequence = 53
to_u32 set_ssv = 54
to_u32 test_state_id = 55
to_u32 want_delegation = 56
to_u32 destroy_client_id = 57
to_u32 reclaim_complete = 58
to_u32 illegal = 10044

unfoldable pub name : OpCode → String
name access = "ACCESS"
name close = "CLOSE"
name commit = "COMMIT"
name create = "CREATE"
name deleg_purge = "DELEGPURGE"
name deleg_return = "DELEGRETURN"
name get_attr = "GETATTR"
name get_fh = "GETFH"
name link = "LINK"
name lock = "LOCK"
name lock_t = "LOCKT"
name lock_u = "LOCKU"
name lookup = "LOOKUP"
name lookup_p = "LOOKUPP"
name nverify = "NVERIFY"
name open_op = "OPEN"
name open_attr = "OPENATTR"
name open_confirm = "OPEN_CONFIRM"
name open_downgrade = "OPEN_DOWNGRADE"
name put_fh = "PUTFH"
name put_pub_fh = "PUTPUBFH"
name put_root_fh = "PUTROOTFH"
name read = "READ"
name read_dir = "READDIR"
name read_link = "READLINK"
name remove = "REMOVE"
name rename = "RENAME"
name renew = "RENEW"
name restore_fh = "RESTOREFH"
name save_fh = "SAVEFH"
name sec_info = "SECINFO"
name set_attr = "SETATTR"
name set_client_id = "SETCLIENTID"
name set_client_id_confirm = "SETCLIENTID_CONFIRM"
name verify = "VERIFY"
name write = "WRITE"
name release_lock_owner = "RELEASE_LOCKOWNER"
name backchannel_ctl = "BACKCHANNEL_CTL"
name bind_conn_to_session = "BIND_CONN_TO_SESSION"
name exchange_id = "EXCHANGE_ID"
name create_session = "CREATE_SESSION"
name destroy_session = "DESTROY_SESSION"
name free_state_id = "FREE_STATEID"
name get_dir_delegation = "GET_DIR_DELEGATION"
name get_device_info = "GETDEVICEINFO"
name get_device_list = "GETDEVICELIST"
name layout_commit = "LAYOUTCOMMIT"
name layout_get = "LAYOUTGET"
name layout_return = "LAYOUTRETURN"
name sec_info_no_name = "SECINFO_NO_NAME"
name sequence = "SEQUENCE"
name set_ssv = "SET_SSV"
name test_state_id = "TEST_STATEID"
name want_delegation = "WANT_DELEGATION"
name destroy_client_id = "DESTROY_CLIENTID"
name reclaim_complete = "RECLAIM_COMPLETE"
name illegal = "ILLEGAL"

abbrev pub from_u32_arms : List (ℕ × OpCode)
from_u32_arms =
    (3, access)
    ∷ (4, close)
    ∷ (5, commit)
    ∷ (6, create)
    ∷ (7, deleg_purge)
    ∷ (8, deleg_return)
    ∷ (9, get_attr)
    ∷ (10, get_fh)
    ∷ (11, link)
    ∷ (12, lock)
    ∷ (13, lock_t)
    ∷ (14, lock_u)
    ∷ (15, lookup)
    ∷ (16, lookup_p)
    ∷ (17, nverify)
    ∷ (18, open_op)
    ∷ (19, open_attr)
    ∷ (20, open_confirm)
    ∷ (21, open_downgrade)
    ∷ (22, put_fh)
    ∷ (23, put_pub_fh)
    ∷ (24, put_root_fh)
    ∷ (25, read)
    ∷ (26, read_dir)
    ∷ (27, read_link)
    ∷ (28, remove)
    ∷ (29, rename)
    ∷ (30, renew)
    ∷ (31, restore_fh)
    ∷ (32, save_fh)
    ∷ (33, sec_info)
    ∷ (34, set_attr)
    ∷ (35, set_client_id)
    ∷ (36, set_client_id_confirm)
    ∷ (37, verify)
    ∷ (38, write)
    ∷ (39, release_lock_owner)
    ∷ (40, backchannel_ctl)
    ∷ (41, bind_conn_to_session)
    ∷ (42, exchange_id)
    ∷ (43, create_session)
    ∷ (44, destroy_session)
    ∷ (45, free_state_id)
    ∷ (46, get_dir_delegation)
    ∷ (47, get_device_info)
    ∷ (48, get_device_list)
    ∷ (49, layout_commit)
    ∷ (50, layout_get)
    ∷ (51, layout_return)
    ∷ (52, sec_info_no_name)
    ∷ (53, sequence)
    ∷ (54, set_ssv)
    ∷ (55, test_state_id)
    ∷ (56, want_delegation)
    ∷ (57, destroy_client_id)
    ∷ (58, reclaim_complete)
    ∷ (10044, illegal)
    ∷ []

pub first_arm : ℕ → List (ℕ × OpCode) → Result Error OpCode
first_arm value [] = err Error.protocol
first_arm value ((n, op) ∷ arms) = if value == n then ok op else first_arm value arms

unfoldable pub from_u32 : ℕ → Result Error OpCode
unfolding first_arm
from_u32 value = first_arm value from_u32_arms
