-- ===== src/Schema/SyncUrl.antt =====
-- `_resolve_sync_url` of alembic/env.py. The text of a URL is taken apart by `urlparse`.
use Prim.Native.String.{◌++◌ as str_append, slice, len}
use text.Mathlib.Text.{starts_with}
use text.Mathlib.TextPositions.{starts_with-append, slice-append_right, len-append}
use vfobs.Prelude.{String, ◌≡◌, ◌∙◌, ap, true, if◌then◌else◌}

-- What is left of a text that starts with another, behind the new beginning.
with_beginning : String → String → String → String
with_beginning old new s = str_append new (slice s (len old) (len s))

-- `s.replace(old, new, 1)`: the first occurrence of `old` is replaced.
unfoldable pub replace_first : String → String → String → String
unfolding with_beginning
replace_first old new String.[] = if starts_with "" old then with_beginning old new "" else ""
replace_first old new (String.◌∷◌ c s) =
    let rest = replace_first old new s in
    if starts_with (String.◌∷◌ c s) old
    then with_beginning old new (String.◌∷◌ c s)
    else String.◌∷◌ c rest

-- `sync_scheme`
abbrev pub sync_scheme : String
sync_scheme = "postgresql+psycopg"

-- `_resolve_sync_url`, where `scheme_of` is `urlparse(raw).scheme` and `raw` the configured URL.
unfoldable pub resolve_sync_url : (String → String) → String → String
unfolding replace_first
resolve_sync_url scheme_of raw = replace_first (scheme_of raw) sync_scheme raw

replace_first-with_beginning :
    (old new s : String)
    → starts_with s old ≡ true
    → replace_first old new s ≡ with_beginning old new s
unfolding replace_first
replace_first-with_beginning old new String.[] h = rw h
replace_first-with_beginning old new (String.◌∷◌ c s) h = rw h

-- Where the URL begins with its scheme, as `urlparse` tells it, alembic gets the same URL with the
-- scheme of the synchronous driver in its place, whatever else stands in it.
pub resolve_sync_url_lem :
    (scheme_of : String → String) (scheme rest : String)
    → scheme_of (str_append scheme rest) ≡ scheme
    → resolve_sync_url scheme_of (str_append scheme rest) ≡ str_append sync_scheme rest
unfolding resolve_sync_url with_beginning
resolve_sync_url_lem scheme_of scheme rest parsed = rw parsed (
    replace_first-with_beginning scheme sync_scheme (str_append scheme rest)
      (starts_with-append scheme rest)
    ∙ ap (str_append sync_scheme) (rw (len-append scheme rest) (slice-append_right scheme rest)))
