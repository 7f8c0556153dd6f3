-- ===== src/Tests/Publish.antt =====
-- A publication whose LINK was answered with DELAY, and a removal whose request was not sent.
use nfs_crust.Prelude.{◌≡◌, refl, []}
use nfs_crust.Error.{Error}
use nfs_crust.Error.Classify.{
  is_retryable, is_request_not_sent, is_nfs_operation, is_nfs_error, nfs_status_code,
}
use nfs_crust.Nfs4.OpCode.{name}
use nfs_crust.Client.Publish.{
  PutMode, NotRun, error_proves_operation_not_run, classify_publish_error, publish_result,
  delete_result, publish_result-retryable, delete_result-retryable,
}

publish_result-retryable_example :
    NotRun (Error.nfs 10008 "LINK") × (Error.nfs 10008 "LINK" ≡ Error.nfs 10008 "LINK")
unfolding publish_result classify_publish_error error_proves_operation_not_run is_retryable
    is_request_not_sent is_nfs_operation is_nfs_error nfs_status_code name
publish_result-retryable_example =
    publish_result-retryable PutMode.if_not_exists (Error.nfs 10008 "LINK") (Error.nfs 10008 "LINK")
      [] refl refl

delete_result-retryable_example :
    NotRun (Error.request_not_sent Error.connection_lost)
    × (Error.request_not_sent Error.connection_lost ≡ Error.request_not_sent Error.connection_lost)
unfolding delete_result error_proves_operation_not_run is_retryable is_request_not_sent
    is_nfs_operation is_nfs_error
delete_result-retryable_example =
    delete_result-retryable (Error.request_not_sent Error.connection_lost)
      (Error.request_not_sent Error.connection_lost) [] refl refl
