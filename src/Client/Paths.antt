-- ===== src/Client/Paths.antt =====
-- `expand_home` (client/src/paths.rs), with the paths of Unix.
use lfp_pipe.Base.{Option, none, some, ◌++◌, if◌then◌else◌}
use lfp_pipe.Text.{codes}
use lfp_pipe.Text.Ascii.{Str, str_eq}
use lfp_pipe.Text.Affix.{starts_with, ends_with, strip_prefix}
use lfp_pipe.Base.{or_option, ◌∷◌, []}

-- `base.join(relative)`.
unfoldable pub join_path : Str → Str → Str
join_path base relative =
    if starts_with relative (codes "/")
    then relative
    else if ends_with base (codes "/")
    then base ++ relative
    else base ++ (codes "/" ++ relative)

abbrev in_home : Option Str → Str → Option Str
in_home none relative = none
in_home (some home) relative = some (join_path home relative)

abbrev expanded : Option Str → Str → Option Str → Option Str
expanded home path none = some path
expanded home path (some relative) = in_home home relative

-- Given `dirs::home_dir()`; nothing is the error that there is none.
unfoldable pub expand_home : Option Str → Str → Option Str
expand_home home path =
    if str_eq path (codes "~")
    then home
    else expanded home path
        (or_option (strip_prefix path (codes "~/")) (strip_prefix path (b'~' ∷ 92 ∷ [])))
