-- ===== src/LicenseMgr.antt =====
-- server/natserver/src/LicenseMgr.{h,cpp}: the white list and its file. A file is its bytes, `none`
-- if it cannot be opened; the random salt and IV of `save` are arguments. The mutex `mu_` is free
-- between the calls.
pub mod Set
pub mod File
pub mod Padding
use p2p_server.Prelude.{
  ℕ, suc, ◌+◌, ◌-◌, ◌==◌, ltb, if◌then◌else◌, Bool, true, false, not, ◌&&◌, ◌||◌, List, [], ◌∷◌,
  ◌++◌, Option, none, some, Bytes, bytes_eq, length, is_empty, codes, take, drop,
}
use p2p_server.Prelude.Maps.{Map, find, contains, insert, erase, bytes_key}
use p2p_server.Prelude.Wire.{be32, read_be32, slice}
use p2p_server.Crypto.Hmac.{pbkdf2_hmac_sha256}
use p2p_server.Crypto.Modes.{aes256_cbc_encrypt, aes256_cbc_decrypt}

-- A `std::set<std::string>` is a tree map to the unit type.
abbrev pub UuidSet : Type 0
UuidSet = Map Bytes Unit

pub record LicenseMgr : Type 0 where
  pub path : Bytes
  pub pass : Bytes
  pub uuids : UuidSet

abbrev pub enc_magic : Bytes
enc_magic = codes "P2PL"

abbrev pub plain_header : Bytes
plain_header = codes "#P2P-LICENSE-v1\n"

abbrev pub pbkdf2_iter : ℕ
pbkdf2_iter = 10000

abbrev pub salt_len : ℕ
salt_len = 16

abbrev pub iv_len : ℕ
iv_len = 16

abbrev pub set_path : LicenseMgr → Bytes → LicenseMgr
set_path s path = record s { path = path }

abbrev pub set_password : LicenseMgr → Bytes → LicenseMgr
set_password s pass = record s { pass = pass }

-- A line without the carriage return at its end.
unfoldable pub drop_cr : Bytes → Bytes
drop_cr [] = []
drop_cr (b ∷ []) = if b == 13 then [] else b ∷ []
drop_cr (b ∷ c ∷ bs) = b ∷ drop_cr (c ∷ bs)

-- What one line adds: nothing for an empty line or a comment.
unfoldable pub parse_line : Bytes → UuidSet → UuidSet
parse_line [] out = out
parse_line (b ∷ bs) out =
    if b == b'#'
    then out
    else (let uuid = drop_cr (b ∷ bs) in if is_empty uuid then out else insert uuid tt out)

-- `line` is what has been read of the current line.
unfoldable pub parse_lines : Bytes → Bytes → UuidSet → UuidSet
parse_lines line [] out = parse_line line out
parse_lines line (b ∷ bs) out =
    let next = parse_lines [] bs (parse_line line out) in
    let more = parse_lines (line ++ b ∷ []) bs out in if b == 10 then next else more

abbrev pub parse_uuids : UuidSet → Bytes → UuidSet
parse_uuids out content = parse_lines [] content out

-- The plain text of an encrypted file and its length without the padding.
unfoldable pub decrypt_file : Bytes → Bytes → Option (Bytes × ℕ)
decrypt_file pass raw =
    let iter = read_be32 raw 5 in
    let key =
      pbkdf2_hmac_sha256 pass (slice raw 9 salt_len) (if iter == 0 then pbkdf2_iter else iter) 32 in
    let cipher = drop (9 + salt_len + iv_len) raw in
    aes256_cbc_decrypt key (slice raw (9 + salt_len) iv_len) cipher (length cipher + 1)

-- The text after the header: the code takes `plen` bytes from the header's end on, out of a buffer
-- of one byte more than the ciphertext.
unfoldable pub body_of : Option (Bytes × ℕ) → Option Bytes
body_of none = none
body_of (some (plain, plen)) =
    let header = length plain_header in
    if ltb plen header || not (bytes_eq (take header plain) plain_header)
    then none
    else some (take plen (drop header (plain ++ 0 ∷ [])))

-- What a call of `load` comes to: it returns, or waits for ever for a lock, with the list stored.
pub data Loaded : Type 0 where
  returned : LicenseMgr → Bool → Loaded
  blocked : LicenseMgr → Loaded

-- `count()`, whose lock guard waits for ever, `none`, when the mutex `mu_` is held already: a
-- `std::mutex` cannot be taken twice by one thread.
unfoldable pub count_locking : Bool → LicenseMgr → Option ℕ
count_locking true s = none
count_locking false s = some (length s.uuids)

-- `LOGI(..., count())` as the last statement of `load`, whose own lock guard is still in scope: the
-- arguments are evaluated whatever the level of the log is.
unfoldable pub log_count : LicenseMgr → Loaded
log_count s = elim (count_locking true s) [ none ↦ blocked s | some n ↦ returned s true ]

unfoldable pub load_encrypted : LicenseMgr → Bytes → Loaded
load_encrypted s raw =
    if ltb (length raw) (9 + salt_len + iv_len + 16) || is_empty s.pass
    then returned s false
    else elim (body_of (decrypt_file s.pass raw)) [
      | none ↦ returned s false
      | some body ↦ log_count (record s { uuids = parse_uuids [] body })
    ]

unfoldable pub load : LicenseMgr → Bytes → Option Bytes → Loaded
load s path none = returned s false
load s path (some raw) =
    let named = set_path s path in
    if bytes_eq (take 4 raw) enc_magic
    then load_encrypted named raw
    else log_count (record named { uuids = parse_uuids [] raw })

unfoldable pub lines_of : UuidSet → Bytes
lines_of [] = []
lines_of ((uuid, _) ∷ m) = uuid ++ 10 ∷ lines_of m

abbrev pub plain_text : LicenseMgr → Bytes
plain_text s = plain_header ++ lines_of s.uuids

-- The bytes of an encrypted file; `none` when the encryption fails.
unfoldable pub encrypted_file : Bytes → Bytes → Bytes → Bytes → Option Bytes
encrypted_file pass salt iv plain =
    let key = pbkdf2_hmac_sha256 pass salt pbkdf2_iter 32 in
    elim (aes256_cbc_encrypt key iv plain (length plain + 16)) [
      | none ↦ none
      | some cipher ↦ some (enc_magic ++ 1 ∷ be32 pbkdf2_iter ++ salt ++ iv ++ cipher)
    ]

-- What is written to the file `path`; `none` when nothing is.
unfoldable pub save : LicenseMgr → Bytes → Bytes → Option Bytes
save s salt iv =
    if is_empty s.path
    then none
    else if is_empty s.pass
    then some (plain_text s)
    else encrypted_file s.pass salt iv (plain_text s)

unfoldable pub add : LicenseMgr → Bytes → LicenseMgr × Bool
add s uuid =
    if is_empty uuid
    then (s, false)
    else if contains uuid s.uuids
    then (s, false)
    else (record s { uuids = insert uuid tt s.uuids }, true)

unfoldable pub remove : LicenseMgr → Bytes → LicenseMgr × Bool
remove s uuid = (record s { uuids = erase uuid s.uuids }, contains uuid s.uuids)

unfoldable pub exists : LicenseMgr → Bytes → Bool
exists s uuid = contains uuid s.uuids

-- `count()` from outside, with the mutex free.
abbrev pub count : LicenseMgr → ℕ
count s = length s.uuids

unfoldable pub keys_of : UuidSet → List Bytes
keys_of [] = []
keys_of ((uuid, _) ∷ m) = uuid ∷ keys_of m

abbrev pub list : LicenseMgr → List Bytes
list s = keys_of s.uuids

-- An empty list admits everyone.
unfoldable pub allowed : LicenseMgr → Bytes → Bool
allowed s uuid = is_empty s.uuids || contains uuid s.uuids
