-- ===== src/Recovery/Tests.antt =====
-- A service without logs, one with a single log, and the scan's theorems at concrete inputs.
use ormpindexer.Base.{
  ℕ, ◌-◌, ◌≤◌, ◌≡◌, refl, true, false, none, some, List, [], ◌∷◌, ◌++◌, codes, ltb, if◌then◌else◌,
  length, All, text_eq, to_ascii_lowercase, eq_ignore_ascii_case, ok, Error, is_ok, arith,
}
use ormpindexer.Base.Action.{Keeps, Action, pure, bail, Keeps-pure, Keeps-if, ◌>>=◌}
use ormpindexer.Base.Trim.{trim, trim_by, front_space, back_space}
use ormpindexer.Decoder.Hex.{normalize_hex, decode_hex, normalize_block_timestamp}
use ormpindexer.Decoder.Abi.{
  decode_event, take, take_as, token_fixed_bytes, token_address, token_uint, token_bytes,
}
use ormpindexer.Decoder.Topics.{as_u128}
use ormpindexer.Decoder.Events.Ormp.{decode_message_assigned, plain_message_assigned}
use ormpindexer.Decoder.Evm.{
  decode_evm_log, topic0_of, evm_metadata, block_timestamp_of, as_i32, decode_topic0,
}
use ormpindexer.Decoder.Zeros.{zero_packages, zero_packages-Documented, zero_bytes, hex_encode}
use ormpindexer.Planner.{ormp_message_assigned_topic}
use ormpindexer.Base.{Option}
use ormpindexer.Recovery.Command.{
  Args, RecoveryStore, recovered, ensure_mainnet, scan_from, without_store, with_pool, execute,
}
use ormpindexer.Recovery.Command.DryRun.{IsReading, execute-Keeps}
use ormpindexer.Recovery.Rpc.{
  tron_chain_id, ormp, RpcLog, TronRpc, hex_u64, u64_from_hex, hex_number, quantity,
}
use ormpindexer.Recovery.Decode.{
  position_of, fetch_block, block_of, transaction_of, check_transaction, normalized, decode_log,
  decode_logs, decode_range,
}
use ormpindexer.Recovery.Decode.Checked.{IsOf, decode_range-IsOf}
use ormpindexer.Recovery.Scan.{
  logs, after_logs, find_logs, commit_to, scan_range, scan, recover, sort_logs,
}
use ormpindexer.Recovery.Scan.Committed.{Committed}
use ormpindexer.Recovery.Scan.Progress.{find_logs_lem}
use ormpindexer.Schema.Ids.{strip_hex_prefix, digits}
use ormpindexer.Schema.Types.{LegacyEvent, message_assigned}

-- The state is the block that is recorded. Ranges of more than two blocks are refused.
abbrev quiet : TronRpc ℕ
quiet = record {
  chain_id = pure (some (codes "0x2b6653dc"));
  confirmed_head = pure 9;
  get_logs = λ start end. if ltb (end - start) 2 then pure [] else bail Error.remote;
  block = λ number. bail Error.remote;
  transaction = λ hash. bail Error.remote;
}

abbrev commit : List LegacyEvent → ℕ → Action ℕ (Unit {0})
commit events next w = (ok tt, next)

abbrev recorded : ℕ → ℕ
recorded w = w

-- Blocks 4 and 5, 6 and 7, 8, and 9.
scanned : recover zero_packages quiet (some commit) 4 9 4 4 ≡ (ok (3, 0), 10)
unfolding recover scan scan_range find_logs after_logs logs sort_logs decode_range decode_logs
    commit_to ◌>>=◌
scanned = refl

single_blocks : (w : ℕ) → is_ok (logs zero_packages quiet 4 4 w).0 ≡ true
unfolding logs ◌>>=◌
single_blocks w = refl

find_logs_lem_example :
    (end : ℕ) × (list : List RpcLog) × ((find_logs zero_packages quiet 5 4 8 4).0 ≡ ok (end, list))
    × 4 ≤ end
    × end ≤ 8
find_logs_lem_example =
    find_logs_lem zero_packages quiet 5 4 8 4 single_blocks (omega arith) (omega arith)

-- A service with one assignment, in block 5.
abbrev found : RpcLog
found = record {
  address = codes "0x5C5c383febe62f377f8c0ea1de97f2a2ba102e98";
  topics = ormp_message_assigned_topic ∷ [];
  payload = codes "0x";
  block_number = codes "0x5";
  block_hash = codes "0xaa";
  transaction_hash = codes "0xbb";
  transaction_index = codes "0x1";
  log_index = codes "0x2";
  removed = false;
}

abbrev busy : TronRpc ℕ
busy = record {
  chain_id = pure none;
  confirmed_head = pure 9;
  get_logs = λ start end. pure (found ∷ []);
  block = λ number. pure (record {
    number = some (codes "0x5");
    hash = some (codes "0xAA");
    parent_hash = some (codes "0xa9");
    timestamp = some (codes "0x10");
  });
  transaction = λ hash. pure (record {
    hash = some (codes "0xbb");
    block_hash = some (codes "0xaa");
    block_number = some (codes "0x5");
    transaction_index = some (codes "0x1");
    from = some (codes "0xCC");
  });
}

abbrev event : LegacyEvent
event = message_assigned (record {
  metadata = record {
    id = codes "tron-5-0xbb-2";
    chain_id = tron_chain_id;
    block_number = 5;
    block_hash = some (codes "0xaa");
    block_timestamp = 16;
    transaction_hash = codes "0xbb";
    transaction_index = 1;
    log_index = 2;
    contract_address = ormp;
    transaction_from = some (codes "0xcc");
  };
  msg_hash = codes "0x" ++ hex_encode (zero_bytes 32);
  oracle = codes "0x" ++ hex_encode (zero_bytes 20);
  relayer = codes "0x" ++ hex_encode (zero_bytes 20);
  oracle_fee = 0;
  relayer_fee = 0;
  params = codes "0x";
})

decoded : (decode_range zero_packages busy (found ∷ []) 4 6 4).0 ≡ ok (event ∷ [])
unfolding decode_range decode_logs decode_log position_of block_of fetch_block transaction_of
    check_transaction normalized hex_u64 u64_from_hex hex_number quantity digits decode_evm_log
    topic0_of evm_metadata block_timestamp_of as_i32 normalize_hex trim trim_by front_space
    back_space strip_hex_prefix to_ascii_lowercase eq_ignore_ascii_case normalize_block_timestamp
    decode_hex decode_topic0 text_eq decode_message_assigned plain_message_assigned decode_event
    take take_as token_fixed_bytes token_address token_uint token_bytes as_u128 ◌>>=◌
decoded = refl

decode_range-IsOf_example :
    All (IsOf 4 6) (event ∷ []) × (length (event ∷ []) ≡ length (found ∷ []))
decode_range-IsOf_example =
    decode_range-IsOf zero_packages-Documented busy (found ∷ []) 4 6 4 (event ∷ []) decoded

quiet-IsReading : IsReading quiet recorded
quiet-IsReading = record {
  chain_keeps = record { at = λ w. refl };
  head_keeps = Keeps-pure 9;
  logs_keep = λ start end.
      Keeps-if (ltb (end - start) 2) (pure []) (bail Error.remote) (Keeps-pure [])
        (record { at = λ w. refl });
  block_keeps = λ number. record { at = λ w. refl };
  transaction_keeps = λ hash. record { at = λ w. refl };
}

abbrev preview : Args
preview = record { from_block = 4; to_block = some 9; batch_size = 4; dry_run = true }

abbrev pool : Option (RecoveryStore ℕ)
pool = some (record {
  lock = pure true;
  check_preceding_message = pure tt;
  next_block = λ start. pure start;
  commit = commit;
})

execute-Keeps_example : Keeps recorded (execute zero_packages quiet preview pool)
execute-Keeps_example = execute-Keeps zero_packages quiet recorded quiet-IsReading preview pool refl

previewed : execute zero_packages quiet preview pool 4 ≡ (ok (recovered 3 0), 4)
unfolding execute ensure_mainnet with_pool without_store scan_from recover scan scan_range find_logs
    after_logs logs sort_logs decode_range decode_logs commit_to hex_u64 u64_from_hex hex_number
    ◌>>=◌
previewed = refl
