-- ===== src/Error/Classify/Laws.antt =====
-- What the classifications of src/error.rs say of one another.
use text.Mathlib.TextEquality.{eq_iff}
use nfs_crust.Prelude.{◌≡◌, ◌↔◌, refl, ap, Bool, true, false, ◌&&◌, ◌||◌, arith, ◌==◌}
use nfs_crust.Error.{Error}
use nfs_crust.Nfs4.OpCode.{OpCode, name}
use nfs_crust.Nfs4.OpCode.Laws.{name-injective}
use nfs_crust.Nfs4.Status.{NfsStatus, delay, grace}
use nfs_crust.Error.Classify.{
  nfs_error, is_nfs_error, is_retryable, requires_session_rebuild, with_close_failure, is_not_found,
  is_permission_denied, is_outcome_unknown, is_request_not_sent, wrap_not_sent,
}

-- The server asked the client to wait: the only errors that are retried in place.
abbrev pub asks_to_wait : Error → Bool
asks_to_wait (Error.request_not_sent source) = asks_to_wait source
asks_to_wait (Error.nfs s operation) = s == delay || s == grace
asks_to_wait _ = false

-- An error is retryable exactly when the session has to be rebuilt or the server asked to wait.
pub is_retryable-split :
    (e : Error) → is_retryable e ≡ (requires_session_rebuild e || asks_to_wait e)
unfolding is_retryable requires_session_rebuild
is_retryable-split Error.io = refl
is_retryable-split (Error.request_not_sent source) = is_retryable-split source
is_retryable-split (Error.nfs s operation) = ground arith
is_retryable-split _ = refl

-- No error both asks to wait and calls for a new session.
pub wait-or-rebuild : (e : Error) → (requires_session_rebuild e && asks_to_wait e) ≡ false
unfolding requires_session_rebuild
wait-or-rebuild Error.io = refl
wait-or-rebuild (Error.request_not_sent source) = wait-or-rebuild source
wait-or-rebuild (Error.nfs s operation) = ground arith
wait-or-rebuild _ = refl

rebuild→retryable : (e : Error) → requires_session_rebuild e ≡ true → is_retryable e ≡ true
rebuild→retryable e h = ground (arith, is_retryable-split e)

lost_rebuild : requires_session_rebuild Error.connection_lost ≡ true
unfolding requires_session_rebuild
lost_rebuild = refl

protocol_classes :
    (is_retryable Error.protocol ≡ false) × (requires_session_rebuild Error.protocol ≡ false)
unfolding is_retryable requires_session_rebuild
protocol_classes = (refl, refl)

-- A failure combined with a failed CLOSE is retryable exactly when one of the two is, and calls for
-- a new session exactly when one of the two does.
pub with_close_failure-classes :
    (e close_err : Error)
    → (is_retryable (with_close_failure e close_err) ≡ (is_retryable e || is_retryable close_err))
      × (requires_session_rebuild (with_close_failure e close_err)
          ≡ (requires_session_rebuild e || requires_session_rebuild close_err))
unfolding with_close_failure
with_close_failure-classes e close_err = ground (
  arith,
  lost_rebuild,
  protocol_classes,
  rebuild→retryable e,
  rebuild→retryable close_err,
  rebuild→retryable Error.connection_lost,
)

-- Marking an error as not sent shows in `is_request_not_sent`, is done once, and keeps whether a
-- retry may help and whether it needs a new session.
pub wrap_not_sent-classes :
    (e : Error)
    → (is_request_not_sent (wrap_not_sent e) ≡ true)
      × (wrap_not_sent (wrap_not_sent e) ≡ wrap_not_sent e)
      × (is_retryable (wrap_not_sent e) ≡ is_retryable e)
      × (requires_session_rebuild (wrap_not_sent e) ≡ requires_session_rebuild e)
unfolding wrap_not_sent is_request_not_sent is_retryable requires_session_rebuild
wrap_not_sent-classes (Error.request_not_sent source) = (refl, refl, refl, refl)
wrap_not_sent-classes _ = (refl, refl, refl, refl)

-- An error built from a status and an operation is recognised as exactly that pair.
pub is_nfs_error-nfs_error :
    (s t : NfsStatus) (op q : OpCode)
    → (is_nfs_error (nfs_error s op) t q ≡ true) ↔ ((s ≡ t) × (op ≡ q))
unfolding is_nfs_error nfs_error
is_nfs_error-nfs_error s t op q = (
  λ h. (ground (arith, h), name-injective op q (ground (arith, h, eq_iff (name op) (name q)))),
  λ h. ground (arith, h, ap name h.1, eq_iff (name op) (name q)),
)

-- A missing path is final: an error that says so is not retryable, is no denial of access and no
-- unknown outcome.
pub is_not_found-final :
    (e : Error)
    → is_not_found e ≡ true
    → (is_retryable e ≡ false) × (is_permission_denied e ≡ false) × (is_outcome_unknown e ≡ false)
unfolding is_not_found is_nfs_error is_retryable is_permission_denied is_outcome_unknown
is_not_found-final (Error.nfs s operation) h = ground arith
is_not_found-final _ h = ground arith
