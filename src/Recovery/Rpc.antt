-- ===== src/Recovery/Rpc.antt =====
-- The JSON-RPC client (src/tron_recovery/rpc.rs). The network and JSON are parameters: a call changes
-- the state of the world and gives a result. Of an object, the fields that are read are optional texts.
use ormpindexer.Base.{
  ℕ, zero, suc, ◌+◌, ◌-◌, ◌*◌, ◌&&◌, ◌||◌, not, Bool, true, false, Option, List, [], ◌∷◌, Text,
  codes, leb, ltb, ◌==◌, if◌then◌else◌, all, is_empty, u64_max, Result, ok, err, Error, context,
  ◌>>=◌,
}
use ormpindexer.Base.Action.{Action}
use ormpindexer.Decoder.Hex.{is_ascii_hexdigit}

abbrev pub tron_chain_id : ℕ
tron_chain_id = 728126428

abbrev pub ormp : Text
ormp = codes "0x5c5c383febe62f377f8c0ea1de97f2a2ba102e98"

abbrev pub msgport : Text
msgport = codes "0x3bc5362ec3a3dbc07292aed4ef18be18de02da3a"

pub record RpcLog : Type 0 where
  pub address : Text
  pub topics : List Text
  pub payload : Text
  pub block_number : Text
  pub block_hash : Text
  pub transaction_hash : Text
  pub transaction_index : Text
  pub log_index : Text
  pub removed : Bool

pub record RpcBlock : Type 0 where
  pub number : Option Text
  pub hash : Option Text
  pub parent_hash : Option Text
  pub timestamp : Option Text

pub record RpcTransaction : Type 0 where
  pub hash : Option Text
  pub block_hash : Option Text
  pub block_number : Option Text
  pub transaction_index : Option Text
  pub from : Option Text

abbrev pub hex_value : ℕ → ℕ
hex_value c = if leb c b'9' then c - b'0' else if leb c b'F' then c - 55 else c - 87

unfoldable pub hex_number : ℕ → Text → ℕ
hex_number acc [] = acc
hex_number acc (c ∷ text) = hex_number (acc * 16 + hex_value c) text

abbrev pub strip_plus : Text → Text
strip_plus [] = []
strip_plus (c ∷ text) = if c == b'+' then text else c ∷ text

-- `u64::from_str_radix(digits, 16)`
unfoldable pub u64_from_hex : Text → Result ℕ
u64_from_hex value =
    let digits = strip_plus value in
    if not (is_empty digits) && (all is_ascii_hexdigit digits && leb (hex_number 0 digits) u64_max)
    then ok (hex_number 0 digits)
    else err Error.invalid_quantity

unfoldable pub hex_u64 : Text → Result ℕ
hex_u64 [] = err Error.missing_prefix
hex_u64 (a ∷ []) = err Error.missing_prefix
hex_u64 (a ∷ b ∷ digits) =
    let value = u64_from_hex digits in
    if a == b'0' && b == b'x' then value else err Error.missing_prefix

abbrev pub text : Option Text → Result Text
text field = context field Error.missing_field

unfoldable pub quantity : Option Text → Result ℕ
unfolding hex_u64
quantity field = text field >>= hex_u64

-- What one request to the endpoint comes to: no response, or a status and a body, whose JSON is `none`
-- where it is not valid.
pub data Answer (Value : Type 0) : Type 0 where
  no_answer : Answer Value
  status : ℕ → Option Value → Answer Value

-- What follows an answer: `again` is the next attempt, if this one is not the last.
unfoldable pub after_answer :
    {W Value : Type 0} → Bool → Answer Value → W → Result Value × W → Result Value × W
after_answer last no_answer w again = if last then (err Error.remote, w) else again
after_answer last (status code body) w again =
    if leb 200 code && ltb code 300
    then (context body Error.invalid_answer, w)
    else if last || not (code == 429 || (leb 500 code && ltb code 600))
    then (err Error.remote, w)
    else again

-- The loop of `post`, with so many attempts behind this one. The source has three.
unfoldable pub post : {W Value : Type 0} → (W → Answer Value × W) → ℕ → Action W Value
post send zero w = let (answer, w') = send w in after_answer true answer w' (err Error.panic, w')
post send (suc left) w =
    let (answer, w') = send w in let again = post send left w' in after_answer false answer w' again

-- The calls that the scan makes, each of which is a `call` or a `post` to a path.
pub record TronRpc (W : Type 0) : Type 0 where
  pub chain_id : Action W (Option Text)
  pub confirmed_head : Action W ℕ
  pub get_logs : ℕ → ℕ → Action W (List RpcLog)
  pub block : ℕ → Action W RpcBlock
  pub transaction : Text → Action W RpcTransaction
