-- ===== src/Recovery/Decode/Checked.antt =====
-- What is known of the events of a range (`decode_range` of src/tron_recovery/scan.rs).
use ormpindexer.Base.{
  ℕ, suc, ◌+◌, ◌≤◌, ◌≡◌, refl, ◌∙◌, ap, true, not, ◌&&◌, List, [], ◌∷◌, leb, leb→le, All,
  All-append, length, length-append, ok, Error, ensure-ok, Yields, Yields-ok, Yields-bind, context,
  arith,
}
use ormpindexer.Base.Action.{Ensures, Ensures-pure, Ensures-bind, Ensures-then, Ensures-imp}
use ormpindexer.Datalens.Types.{DatalensLog}
use ormpindexer.Decoder.Abi.{Packages}
use ormpindexer.Decoder.Abi.Typed.{Documented}
use ormpindexer.Decoder.Events.Fields.{metadata_of}
use ormpindexer.Decoder.Evm.{
  evm_metadata, block_timestamp_of, as_i32, normalize_optional, decode_evm_log,
}
use ormpindexer.Decoder.Evm.Events.{decode_evm_log-IsDecoded}
use ormpindexer.Decoder.Hex.{normalize_hex}
use ormpindexer.Recovery.Rpc.{tron_chain_id, RpcLog, RpcBlock, RpcTransaction, TronRpc}
use ormpindexer.Recovery.Decode.{
  Scanned, position_of, normalized, is_own, decode_log, decode_logs, decode_range,
}
use ormpindexer.Schema.Types.{ChainLogMetadata, LegacyEvent}

-- The metadata names the chain and the block of the log.
abbrev Copies : DatalensLog → ChainLogMetadata → Type 0
Copies log metadata =
    (metadata.chain_id ≡ log.chain_id) × (metadata.block_number ≡ log.block_number)

evm_metadata-Copies : (log : DatalensLog) → Yields (Copies log) (evm_metadata log)
unfolding evm_metadata
evm_metadata-Copies log = Yields-bind (block_timestamp_of log) λ _ _.
    Yields-bind (context log.id Error.missing_id) λ _ _.
      Yields-bind (normalize_hex log.transaction_hash) λ _ _.
        Yields-bind (context log.transaction_index Error.missing_transaction_index) λ _ _.
          Yields-bind (as_i32 log.log_index) λ _ _. Yields-bind (normalize_hex log.address) λ _ _.
            Yields-bind (normalize_optional log.transaction_from) λ _ _. Yields-ok _ (refl, refl)

-- An event of this chain, in a block of the range; an accepted message comes from this chain.
pub record IsOf (start end : ℕ) (event : LegacyEvent) : Type 0 where
  pub chain : (metadata_of event).chain_id ≡ tron_chain_id
  pub first : start ≤ (metadata_of event).block_number
  pub last : (metadata_of event).block_number ≤ end
  pub own : is_own event ≡ true

module _ {p : Packages} (d : Documented p) {W : Type 0} (rpc : TronRpc W) where
  position_of-Inside :
      (start end : ℕ) (seen : List (ℕ × ℕ)) (log : RpcLog) (w : W)
      → Ensures (λ at _. start ≤ at.0 × at.0 ≤ end) (position_of p rpc start end seen log) w
  unfolding position_of
  position_of-Inside start end seen log w = Ensures-bind _ _ w λ number _.
      Ensures-bind _ _ w λ u inside. Ensures-bind _ _ w λ _ _. Ensures-bind _ _ w λ _ _.
        Ensures-bind _ _ w λ _ _. Ensures-bind _ _ w λ _ _.
          let within =
            ensure-ok (leb start number && (leb number end && not log.removed))
              Error.unrequested_log u inside in
          Ensures-pure _ w (ground (arith, leb→le start number, leb→le number end))

  normalized-Copies :
      (number index : ℕ) (log : RpcLog) (block : RpcBlock) (tx : RpcTransaction) (w : W)
      → Ensures
          (λ n _. (n.chain_id ≡ tron_chain_id) × (n.block_number ≡ number))
          (normalized p rpc number index log block tx)
          w
  unfolding normalized
  normalized-Copies number index log block tx w = Ensures-bind _ _ w λ _ _.
      Ensures-bind _ _ w λ _ _.
        Ensures-bind _ _ w
          λ _ _. Ensures-bind _ _ w λ _ _. Ensures-bind _ _ w λ _ _. Ensures-pure _ w (refl, refl)

  decoded-IsOf :
      (start end number : ℕ) (log : DatalensLog) (event : LegacyEvent)
      → start ≤ number
      → number ≤ end
      → log.chain_id ≡ tron_chain_id
      → log.block_number ≡ number
      → decode_evm_log p log ≡ ok event
      → is_own event ≡ true
      → IsOf start end event
  decoded-IsOf start end number log event first last chain block h own =
      let (topic0, metadata, named, read, decoded) = decode_evm_log-IsDecoded d log event h in
      let (same_chain, same_block) = (evm_metadata-Copies log).value metadata read in
      let at : (metadata_of event).block_number ≡ number =
        ap (λ m. m.block_number) decoded.same_metadata ∙ (same_block ∙ block) in
      record {
        chain = ap (λ m. m.chain_id) decoded.same_metadata ∙ (same_chain ∙ chain);
        first = rw at first;
        last = rw at last;
        own = own;
      }

  -- One more event, and all of them of the range.
  abbrev Grown : ℕ → ℕ → Scanned → Scanned → Type 0
  Grown start end s s' = All (IsOf start end) s'.events × (length s'.events ≡ suc (length s.events))

  decode_log-Grown :
      (start end : ℕ) (s : Scanned) (log : RpcLog) (w : W)
      → All (IsOf start end) s.events
      → Ensures (λ s' _. Grown start end s s') (decode_log p rpc start end s log) w
  unfolding decode_log
  decode_log-Grown start end s log w h =
      Ensures-then (position_of-Inside start end s.seen log w) λ at w1 (first, last).
        Ensures-bind _ _ w1 λ block _. Ensures-bind _ _ _ λ _ _. Ensures-bind _ _ _ λ _ _.
          Ensures-bind _ _ _ λ tx _. Ensures-bind _ _ _ λ _ _.
            Ensures-then (normalized-Copies at.0 at.1 log block tx _) λ n w2 (chain, number).
              Ensures-bind _ _ w2 λ event decoded. Ensures-bind _ _ w2 λ u checked.
                let own = ensure-ok (is_own event) Error.source_mismatch u checked in
                Ensures-pure _ w2 (
                  All-append (IsOf start end) s.events (event ∷ []) h
                      (decoded-IsOf start end at.0 n event first last chain number decoded own, tt),
                  omega (arith, length-append s.events (event ∷ [])),
                )

  decode_logs-IsOf :
      (start end : ℕ) (s : Scanned) (list : List RpcLog) (w : W)
      → All (IsOf start end) s.events
      → Ensures
          (λ events _.
            All (IsOf start end) events × (length events ≡ length s.events + length list))
          (decode_logs p rpc start end s list)
          w
  unfolding decode_logs
  decode_logs-IsOf start end s [] w h = Ensures-pure _ w (h, omega arith)
  decode_logs-IsOf start end s (log ∷ rest) w h =
      Ensures-then (decode_log-Grown start end s log w h) λ s' w1 (grown, more).
        Ensures-imp (λ events w2 (all, count). (all, omega (arith, count, more)))
          (decode_logs-IsOf start end s' rest w1 grown)

  -- Where the packages do what they document: a range of logs that is accepted is decoded to as many
  -- events, each of the chain and in a block of the range, and each accepted message is from the
  -- chain.
  pub decode_range-IsOf :
      (list : List RpcLog) (start end : ℕ) (w : W) (events : List LegacyEvent)
      → (decode_range p rpc list start end w).0 ≡ ok events
      → All (IsOf start end) events × (length events ≡ length list)
  unfolding decode_range
  decode_range-IsOf list start end w events h =
      let (all, count) = (decode_logs-IsOf start end _ list w tt).holds events h in
      (all, omega arith)
