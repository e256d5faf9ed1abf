-- ===== src/Submission/Text.antt =====
-- The texts that src/submissions reads character by character: `titleOf` of
-- src/submissions/kinds/story.kind.ts, and `parseDetailUrl` of src/submissions/submission-rules.ts.
-- What `new URL(raw)` gives is read off a record; parsing a URL is the platform's.
use Prim.Native.Nat.{ℕ, zero, suc, ◌-◌}
use Prim.Native.Char.{Char, code}
use Prim.Native.String.{String, [], ◌∷◌, ◌++◌, slice, len, count}
use text.Mathlib.Text
use mathlib.Core.Bool.{Bool, true, false, not, ◌&&◌, ◌||◌}
use mathlib.Core.Option.{Option, none, some}
use flyer_g_be.Base.{◌==◌, leb, if◌then◌else◌}

-- `===` of two strings
abbrev pub same_string : String → String → Bool
same_string s t = Text.◌==◌ s t

-- `\s`
abbrev is_space : Char → Bool
is_space c =
    (leb 9 (code c) && leb (code c) 13)
    || code c == 32
    || code c == 160
    || code c == 5760
    || (leb 8192 (code c) && leb (code c) 8202)
    || code c == 8232
    || code c == 8233
    || code c == 8239
    || code c == 8287
    || code c == 12288
    || code c == 65279

-- `replace(/\s+/g, ' ')`, after a space or not
abbrev pub squeeze : (in_space : Bool) → String → String
squeeze in_space [] = []
squeeze in_space (c ∷ s) =
    let after_space = squeeze true s in
    let after_text = squeeze false s in
    if is_space c then if in_space then after_space else " " ++ after_space else c ∷ after_text

-- `[...s].slice(0, n).join('')`
abbrev pub first_chars : ℕ → String → String
first_chars n [] = []
first_chars zero (c ∷ s) = []
first_chars (suc n) (c ∷ s) = c ∷ first_chars n s

-- `titleOf`, with `TITLE_LENGTH`
unfoldable pub title_of : String → String
title_of body = first_chars 40 (squeeze false body)

-- What `parseDetailUrl` reads of `new URL(raw)`: `protocol`, whether `username`, `password` or
-- `port` is not empty, `hostname`, `pathname` and `toString()`
pub record Url : Type 0 where
  pub protocol : String
  pub has_credentials_or_port : Bool
  pub hostname : String
  pub pathname : String
  pub href : String

abbrev is_id_char : Char → Bool
is_id_char c =
    (leb 65 (code c) && leb (code c) 90)
    || (leb 97 (code c) && leb (code c) 122)
    || (leb 48 (code c) && leb (code c) 57)
    || code c == 95
    || code c == 45

abbrev all_id_chars : String → Bool
all_id_chars [] = true
all_id_chars (c ∷ s) = is_id_char c && all_id_chars s

abbrev is_notice_id : String → Bool
is_notice_id s = all_id_chars s && leb 1 (count s) && leb (count s) 64

-- `ZIGGLE_NOTICE_PATH.exec(pathname)?.[1]`: `/notice/`, an id, and a `/` or none
unfoldable pub notice_id_of : String → Option String
notice_id_of pathname =
    let rest = slice pathname 8 (len pathname) in
    let shorter = slice rest 0 (len rest - 1) in
    if not (same_string (slice pathname 0 8) "/notice/")
    then none
    else if is_notice_id rest
    then some rest
    else if same_string rest (shorter ++ "/") && is_notice_id shorter
    then some shorter
    else none

-- `ParsedDetailUrl`, or an error
pub data ParsedDetailUrl : Type 0 where
  refused : ParsedDetailUrl
  parsed : (url : String) → (ziggle_notice_id : Option String) → ParsedDetailUrl

-- `ZIGGLE_HOST`, and the one host of `allowedDetailUrlHosts`
abbrev ziggle_host : String
ziggle_host = "ziggle.gistory.me"

-- `parseDetailUrl`, given the URL of the text, or none where `new URL(raw)` throws
unfoldable pub parse_detail_url : Option Url → ParsedDetailUrl
parse_detail_url none = refused
parse_detail_url (some url) =
    if not (same_string url.protocol "https:")
    then refused
    else if url.has_credentials_or_port || not (same_string url.hostname ziggle_host)
    then refused
    else parsed url.href
        (if same_string url.hostname ziggle_host then notice_id_of url.pathname else none)
