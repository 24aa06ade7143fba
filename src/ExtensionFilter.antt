-- ===== src/ExtensionFilter.antt =====
-- extension_filter.py: the extensions that are never shown in a call log. `filter_call` stands in
-- RawCallLog, whose fields it rewrites.
use wazo_call_logd.Common.{Option, none, some, List, [], ◌∷◌, String, elem, insert, if◌then◌else◌}

-- the set `_extensions`, in the order of insertion
pub record ExtensionFilter : Type 0 where
  pub extensions : List String

-- `ExtensionFilter(DEFAULT_HIDDEN_EXTENSIONS)`
abbrev pub default_filter : ExtensionFilter
default_filter = record { extensions = "s" ∷ [] }

unfoldable pub add_exten : ExtensionFilter → String → ExtensionFilter
add_exten f exten = record { extensions = insert exten f.extensions }

unfoldable pub filter : ExtensionFilter → String → String
filter f exten = if elem exten f.extensions then "" else exten

-- `filter` of a field that may be None, which no filter holds
unfoldable pub filter_field : ExtensionFilter → Option String → Option String
unfolding filter
filter_field f none = none
filter_field f (some exten) = some (filter f exten)
