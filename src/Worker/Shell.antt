-- ===== src/Worker/Shell.antt =====
-- shellQuote of policy.ts and the command line that index.ts builds with it.
pub mod Words
use code_delta.Prelude.{List, ◌∷◌, ◌++◌, map}
use code_delta.Text.{Text, txt, join, replace_unit}

-- `'${argument.replaceAll("'", `'"'"'`)}'`
unfoldable pub shell_quote : Text → Text
unfolding replace_unit
shell_quote argument = (b'\x27' ∷ replace_unit b'\x27' (txt "'\"'\"'") argument) ++ txt "'"

-- check.argv.map(shellQuote).join(" ")
unfoldable pub command_line : List Text → Text
unfolding shell_quote join
command_line argv = join (txt " ") (map shell_quote argv)
