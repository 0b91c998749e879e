-- ===== src/Base/Texts.antt =====
-- White space in texts, as Python's str.strip and str.split see it.
use Prim.Native.Char.{Char, code}
use Prim.Native.String.{String, ◌++◌}
use mathlib.Core.Bool.{Bool, true, false, ◌&&◌, ◌||◌}
use mathlib.Core.List.{List, [], ◌∷◌}
use pyqt_lsf_job_manager.Base.Tests.{leb, ◌==◌, if◌then◌else◌}
use pyqt_lsf_job_manager.Base.Lists.{any}

-- `c.isspace()`
abbrev pub is_space : Char → Bool
is_space c =
    any (λ n. code c == n)
      (9 ∷ 10 ∷ 11 ∷ 12 ∷ 13 ∷ 28 ∷ 29 ∷ 30 ∷ 31 ∷ 32 ∷ 133 ∷ 160 ∷ 5760 ∷ 8232 ∷ 8233 ∷ 8239 ∷ 8287
        ∷ 12288 ∷ [])
    || leb 8192 (code c) && leb (code c) 8202

-- `not text.strip()`
unfoldable pub is_blank : String → Bool
is_blank String.[] = true
is_blank (String.◌∷◌ c s) = is_space c && is_blank s

abbrev is_nil : String → Bool
is_nil String.[] = true
is_nil (String.◌∷◌ c s) = false

-- The words of a text, after the part of a word that was read before it.
unfoldable pub words_after : String → String → List String
words_after word String.[] = if is_nil word then [] else word ∷ []
words_after word (String.◌∷◌ c s) =
    let cut = words_after String.[] s in
    let go_on = words_after (word ++ String.◌∷◌ c String.[]) s in
    if is_space c then if is_nil word then cut else word ∷ cut else go_on

-- `text.split()`
unfoldable pub words : String → List String
unfolding words_after
words = words_after String.[]

-- `a + b`, of texts
abbrev pub both_texts : String → String → String
both_texts a b = a ++ b
