-- ===== src/Nfs4/Status.antt =====
-- src/nfs4.rs: `NfsStatus` is its code; the codes have the names of `mod status`.
use nfs_crust.Prelude.{ℕ, Bool, ◌==◌}

abbrev pub NfsStatus : Type 0
NfsStatus = ℕ

abbrev pub status_ok : NfsStatus
status_ok = 0

abbrev pub perm : NfsStatus
perm = 1

abbrev pub noent : NfsStatus
noent = 2

abbrev pub access : NfsStatus
access = 13

abbrev pub exist : NfsStatus
exist = 17

abbrev pub inval : NfsStatus
inval = 22

abbrev pub notsupp : NfsStatus
notsupp = 10004

abbrev pub delay : NfsStatus
delay = 10008

abbrev pub grace : NfsStatus
grace = 10013

abbrev pub wrongsec : NfsStatus
wrongsec = 10016

abbrev pub stale_clientid : NfsStatus
stale_clientid = 10022

abbrev pub bad_stateid : NfsStatus
bad_stateid = 10025

abbrev pub op_illegal : NfsStatus
op_illegal = 10044

abbrev pub badsession : NfsStatus
badsession = 10052

abbrev pub badslot : NfsStatus
badslot = 10053

abbrev pub complete_already : NfsStatus
complete_already = 10054

abbrev pub seq_misordered : NfsStatus
seq_misordered = 10063

abbrev pub bad_high_slot : NfsStatus
bad_high_slot = 10077

abbrev pub deadsession : NfsStatus
deadsession = 10078

abbrev pub is_ok : NfsStatus → Bool
is_ok s = s == status_ok
