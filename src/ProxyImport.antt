-- ===== src/ProxyImport.antt =====
-- The import of a proxy list: `import_from_csv` of backend/app/services/proxy_pool_service.py and
-- `validate_proxy_url` of backend/app/utils/validators.py. The session does not flush by itself
-- (backend/app/db/session.py), so a query sees the committed rows only, and the commit checks that no
-- `url` stands twice and no label is too long for its column. Python's string methods and `urlparse`
-- are parameters. The texts have no NUL character, which the driver of the database takes in no text.
pub mod Commit
pub mod Whole
pub mod Repeat
mod Tests
use Prim.Native.String.{count}
use jolly_jesters_mvp.Prelude.{
  ℕ, suc, ◌+◌, ◌*◌, Bool, true, false, not, ◌&&◌, ◌||◌, Option, none, some, String, List, [], ◌∷◌,
  ◌++◌, map, ltb, ◌==◌, if◌then◌else◌, string_eq, filterb, findb, anyb, length, is_some,
}
use jolly_jesters_mvp.ProxyPool.{NetworkProxy, new_proxy, update_first}

-- What `urlparse` finds. Reading `.port` raises ValueError for some texts: then it is `none`.
pub record ParsedUrl : Type 0 where
  pub hostname : Option String
  pub scheme : String
  pub port : Option (Option ℕ)

-- The parts of Python and of its library that the import calls.
pub record Python : Type 0 where
  pub strip : String → String
  pub contains : (needle text : String) → Bool
  pub split_comma : String → String × Option String
  pub concat : String → String → String
  pub urlparse : String → ParsedUrl
  pub url_hash : String → String

abbrev pub is_empty : String → Bool
is_empty s = string_eq.beq s ""

abbrev pub is_known_scheme : String → Bool
is_known_scheme s = anyb (string_eq.beq s) ("http" ∷ "https" ∷ "socks4" ∷ "socks5" ∷ [])

-- `parsed.port and (parsed.port < 1 or parsed.port > 65535)`
abbrev pub bad_port : ℕ → Bool
bad_port port = not (port == 0) && (ltb port 1 || ltb 65535 port)

abbrev port_fails : Option (Option ℕ) → Bool
port_fails none = true
port_fails (some none) = false
port_fails (some (some port)) = bad_port port

abbrev host_fails : Option String → Bool
host_fails none = true
host_fails (some h) = is_empty h

-- What a label's truth is.
abbrev pub label_given : Option String → Bool
label_given none = false
label_given (some l) = not (is_empty l)

-- `database_error` is the exception of the commit, for a URL that stands twice or too long a label.
pub data Failure : Type 0 where
  empty_file database_error : Failure

pub record Report : Type 0 where
  pub imported : ℕ
  pub skipped : ℕ
  pub total_lines : ℕ

-- The committed rows, the rows added to the session, and the two counters.
pub record Session : Type 0 where
  pub rows : List NetworkProxy
  pub added : List NetworkProxy
  pub imported : ℕ
  pub skipped : ℕ
  pub next_id : ℕ

pub data Outcome : Type 0 where
  committed : List NetworkProxy → Report → Outcome
  raised : Failure → Outcome

abbrev pub has_url : String → NetworkProxy → Bool
has_url url p = string_eq.beq p.url url

-- The unique constraint on `url`.
abbrev pub distinct : List String → Bool
distinct [] = true
distinct (u ∷ us) = not (anyb (λ v. string_eq.beq v u) us) && distinct us

-- `String(128)`
abbrev pub label_too_long : Option String → Bool
label_too_long none = false
label_too_long (some l) = ltb 128 (count l)

abbrev pub is_too_long : NetworkProxy → Bool
is_too_long p = label_too_long p.label

abbrev pub urls : List NetworkProxy → List String
urls = map (λ p. p.url)

module _ (py : Python) where
  -- `none` is the ValueError that it raises.
  unfoldable pub validate_proxy_url : String → Option String
  validate_proxy_url text =
      let bare = py.strip text in
      let url = if py.contains "://" bare then bare else py.concat "http://" bare in
      let parsed = py.urlparse url in
      if is_empty bare
      then none
      else if host_fails parsed.hostname
      then none
      else if not (is_known_scheme parsed.scheme)
      then none
      else if port_fails parsed.port
      then none
      else some url

  -- A full URL is not split at a comma; any other line is a URL and perhaps a label.
  unfoldable pub parse_line : String → String × Option String
  parse_line line =
      if py.contains "://" line && py.contains "@" line
      then (py.strip line, none)
      else (let (url, rest) = py.split_comma line in
          (py.strip url, elim rest [ none ↦ none | some l ↦ some (py.strip l) ]))

  -- The URL of a line, unless the line is skipped before the database is asked.
  unfoldable pub usable_url : String → Option String
  unfolding parse_line validate_proxy_url
  usable_url line =
      let url = (parse_line line).0 in if is_empty url then none else validate_proxy_url url

  abbrev pub skip : Session → Session
  skip s = record s { skipped = s.skipped + 1 }

  -- `if label and not existing.label: existing.label = label`
  abbrev pub relabel : Option String → NetworkProxy → NetworkProxy
  relabel label p =
      if label_given label && not (label_given p.label) then record p { label = label } else p

  abbrev pub store : String → Option String → Session → Session
  store url label s =
      if anyb (has_url url) s.rows
      then record s {
        rows = update_first (has_url url) (relabel label) s.rows;
        skipped = s.skipped + 1;
      }
      else record s {
        added = s.added ++ new_proxy s.next_id url (py.url_hash url) label ∷ [];
        imported = s.imported + 1;
        next_id = s.next_id + 1;
      }

  -- The body of the loop over the lines.
  unfoldable pub import_line : String → Session → Session
  import_line line s = elim (usable_url line) [
    | none ↦ skip s
    | some url ↦ store url (parse_line line).1 s
  ]

  abbrev pub import_lines : List String → Session → Session
  import_lines [] s = s
  import_lines (line ∷ lines) s = import_lines lines (import_line line s)

  abbrev pub commit : (total : ℕ) → Session → Outcome
  commit total s =
      if distinct (urls (s.rows ++ s.added)) && not (anyb is_too_long (s.rows ++ s.added))
      then committed (s.rows ++ s.added)
          (record { imported = s.imported; skipped = s.skipped; total_lines = total })
      else raised database_error

  abbrev pub start : (next_id : ℕ) → List NetworkProxy → Session
  start next_id rows = record {
    rows = rows;
    added = [];
    imported = 0;
    skipped = 0;
    next_id = next_id;
  }

  abbrev pub import_clean : (next_id : ℕ) → (lines : List String) → List NetworkProxy → Outcome
  import_clean next_id [] rows = raised empty_file
  import_clean next_id (l ∷ ls) rows =
      commit (length (l ∷ ls)) (import_lines (l ∷ ls) (start next_id rows))

  -- `text_lines` are the lines of the decoded file; they are stripped, and the empty ones dropped.
  unfoldable pub import_from_csv :
      (next_id : ℕ) → (text_lines : List String) → List NetworkProxy → Outcome
  import_from_csv next_id text_lines rows =
      import_clean next_id (filterb (λ l. not (is_empty l)) (map py.strip text_lines)) rows
