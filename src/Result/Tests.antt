-- ===== src/Result/Tests.antt =====
-- Contexts at concrete values.
use dro_asms.Prelude.Texts.{eqb_text}
use dro_asms.Result.Sanitize.{
  Entries, empty, entry, text, mapping, items, end, item, sanitize_context, is_sensitive,
  AllCleaned, sanitize_context-AllCleaned,
}

-- A token inside a nested dict, and another inside a list.
abbrev context : Entries
context =
    entry "user" (mapping (entry "token" (text "abc") (entry "name" (text "eve") empty)))
      (entry "users" (items (item (mapping (entry "token" (text "def") empty)) end)) empty)

sanitize_context-AllCleaned_example :
    AllCleaned
      (λ s. s)
      eqb_text
      context
      (entry "user"
        (mapping (entry "token" (text "***redacted***") (entry "name" (text "eve") empty)))
        (entry "users" (items (item (mapping (entry "token" (text "def") empty)) end)) empty))
unfolding sanitize_context is_sensitive
sanitize_context-AllCleaned_example = sanitize_context-AllCleaned (λ s. s) eqb_text context
