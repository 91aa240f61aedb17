-- ===== src/Files/Total.antt =====
-- `handle_request_file` comes to an end, and fails no assertion on the way.
use spindle.Prelude.{Bool, true, false, Option, none, some}
use spindle.Files.{HandleFileResult, alias_to, FileServer}
use spindle.Files.Requests.{RequestEnd}

is_alias_to : HandleFileResult → Bool
is_alias_to alias_to = true
is_alias_to _ = false

-- There is a result: no assertion failed, and the fuel was enough.
unfoldable pub has_result : Option (FileServer × Bool × RequestEnd) → Bool
has_result none = false
has_result (some r) = true
