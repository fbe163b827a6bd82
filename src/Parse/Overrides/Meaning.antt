-- ===== src/Parse/Overrides/Meaning.antt =====
-- What the override list of wide-log-macros/src/parse.rs means: which name it gives to which built-in key.
pub mod Items
pub mod Round
pub mod Exact
use wide_log.Prelude.{
  ℕ, ◌≡◌, refl, Bool, true, false, Option, none, some, List, [], ◌∷◌, Str, chars, str_eq,
  if◌then◌else◌, arith,
}
use wide_log.Parse.{ok, Tokens, end, next, ident, punct, literal}
use wide_log.Parse.Grammar.{IsEnd}
use wide_log.Parse.Overrides.{
  KeyOverrides, LogOverride, EventOverride, DurationOverride, OverridePath, top, sub, path_str,
  override_string,
}
use wide_log.Parse.Overrides.Plain.{IsPlain}

-- The keys that can be renamed.
pub data BuiltinKey : Type 0 where
  log log_level log_message event event_id event_timestamp duration duration_total_ms : BuiltinKey

-- The path of a key in an override list.
abbrev pub path_of : BuiltinKey → OverridePath
path_of log = top (chars "Log")
path_of log_level = sub (chars "Log") (chars "Level")
path_of log_message = sub (chars "Log") (chars "Message")
path_of event = top (chars "Event")
path_of event_id = sub (chars "Event") (chars "Id")
path_of event_timestamp = sub (chars "Event") (chars "Timestamp")
path_of duration = top (chars "Duration")
path_of duration_total_ms = sub (chars "Duration") (chars "TotalMs")

abbrev pub is_same : BuiltinKey → BuiltinKey → Bool
is_same k j = str_eq (path_str (path_of k)) (path_str (path_of j))

-- The new names in the order of the list.
abbrev pub Items : Type 0
Items = List (BuiltinKey × Str)

abbrev pub lookup : BuiltinKey → Items → Option Str
lookup k [] = none
lookup k ((j, name) ∷ items) = if is_same j k then some name else lookup k items

-- No key is renamed twice.
abbrev pub IsDistinct : Items → Type 0
IsDistinct [] = Unit
IsDistinct ((k, name) ∷ items) = (lookup k items ≡ none) × IsDistinct items

-- Each field has the name that the list gives its key, and is not set where the list gives none.
abbrev pub overrides_of : Items → KeyOverrides
overrides_of items = record {
  log = record {
    key = lookup log items;
    level = lookup log_level items;
    message = lookup log_message items;
  };
  event = record {
    key = lookup event items;
    id = lookup event_id items;
    timestamp = lookup event_timestamp items;
  };
  duration = record { key = lookup duration items; total_ms = lookup duration_total_ms items };
}

-- The tokens of a path.
abbrev pub IsPath : Tokens → OverridePath → Tokens → Type 0
IsPath (next (ident s) ts) (top name) rest = (s ≡ name) × (ts ≡ rest)
IsPath (next (ident s) (next (punct c) (next (ident t) ts))) (sub parent name) rest =
    (s ≡ parent) × (c ≡ b'.') × (t ≡ name) × (ts ≡ rest)
IsPath _ _ rest = ⊥

-- The tokens begin with `path => "name"` for the key's path, and `rest` follows.
abbrev pub IsItem : Tokens → BuiltinKey → Str → Tokens → Type 0
IsItem ts k name rest =
    (s : Str) × IsPath ts (path_of k)
      (next (punct b'=') (next (punct b'>') (next (literal s) rest)))
    × (override_string s ≡ ok name)
    × IsPlain name

-- The tokens are items with commas between them; one more comma may follow the last.
abbrev pub IsItems : Tokens → Items → Type 0
IsItems ts [] = ⊥
IsItems ts ((k, name) ∷ []) = (rest : Tokens) × IsItem ts k name rest × IsEnd rest
IsItems ts ((k, name) ∷ i ∷ items) =
    (rest : Tokens) × IsItem ts k name (next (punct b',') rest) × IsItems rest (i ∷ items)
