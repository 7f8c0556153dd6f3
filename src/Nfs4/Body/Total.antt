-- ===== src/Nfs4/Body/Total.antt =====
-- src/nfs4/codec.rs: the decoders of result bodies end in a value or in an error.
use nfs_crust.Prelude.{◌≢◌, ℕ, List, Option}
use nfs_crust.Result.{panic}
use nfs_crust.Result.Action.{Ensures-ne-panic}
use nfs_crust.Xdr.ByteBuf.{ByteBuf}
use nfs_crust.Nfs4.Body.{
  skip_sequence_data, decode_file_handle, decode_read_data, decode_write_data, skip_stateid,
  skip_change_info, decode_open_stateid,
}
use nfs_crust.Nfs4.Body.Moves.{
  sequence_data_moves, file_handle_moves, read_data_moves, write_data_moves, skip_stateid_moves,
  change_info_moves, open_stateid_moves,
}
use nfs_crust.Nfs4.Body.Attrs.{decode_fattr}
use nfs_crust.Nfs4.Body.Attrs.Moves as AttrMoves
use nfs_crust.Xdr.Decoder.{read_bytes}
use nfs_crust.Xdr.Decoder.Moves.{read_bytes_moves}
use nfs_crust.Nfs4.Body.Readdir.{decode_readdir}
use nfs_crust.Nfs4.Body.Readdir.Moves.{decode_readdir-IsPage}
use nfs_crust.Nfs4.Replies.Sequence.{decode_sequence_result}
use nfs_crust.Nfs4.Replies.Sequence.Moves.{decode_sequence_result-IsResult}
use nfs_crust.Nfs4.Body.Setup.{decode_exchange_id, decode_create_session}
use nfs_crust.Nfs4.Body.Setup.Moves.{exchange_id_moves, decode_create_session-IsSession}

module _ ⦃b : ByteBuf⦄ where
  -- On no bytes does decoding the result of a SEQUENCE, GETFH, READ, WRITE, COMMIT, CLOSE, OPEN,
  -- GETATTR, READDIR, EXCHANGE_ID or CREATE_SESSION operation, a change_info, or a SEQUENCE against its
  -- request, panic.
  pub body-ne-panic :
      (hint : Option ℕ) (id : List ℕ) (q slot minimum : ℕ) (s : List ℕ)
      → (skip_sequence_data s ≢ panic)
        × (decode_file_handle s ≢ panic)
        × (decode_read_data s ≢ panic)
        × (decode_write_data s ≢ panic)
        × (read_bytes 8 s ≢ panic)
        × (skip_stateid s ≢ panic)
        × (skip_change_info s ≢ panic)
        × (decode_open_stateid s ≢ panic)
        × (decode_fattr s ≢ panic)
        × (decode_readdir hint s ≢ panic)
        × (decode_exchange_id s ≢ panic)
        × (decode_create_session q minimum s ≢ panic)
        × (decode_sequence_result id q slot s ≢ panic)
  body-ne-panic hint id q slot minimum s = (
    Ensures-ne-panic _ (sequence_data_moves s),
    Ensures-ne-panic _ (file_handle_moves s),
    Ensures-ne-panic _ (read_data_moves s),
    Ensures-ne-panic _ (write_data_moves s),
    Ensures-ne-panic _ (read_bytes_moves 8 s),
    Ensures-ne-panic _ (skip_stateid_moves s),
    Ensures-ne-panic _ (change_info_moves s),
    Ensures-ne-panic _ (open_stateid_moves s),
    Ensures-ne-panic _ (AttrMoves.fattr_moves s),
    Ensures-ne-panic _ (decode_readdir-IsPage hint s),
    Ensures-ne-panic _ (exchange_id_moves s),
    Ensures-ne-panic _ (decode_create_session-IsSession q minimum s),
    Ensures-ne-panic _ (decode_sequence_result-IsResult id q slot s),
  )
