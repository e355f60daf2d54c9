-- ===== src/MockDocker/Shell/Words.antt =====
-- mock-docker/src/shell.ts: `splitCommand`. The words of a line, with quotes; the two flags say whether the
-- text stands in single and in double quotes, and `current` is the word that has begun.
use Prim.Native.Char.{code}
use Prim.Native.String.{[] as no_text, ◌∷◌ as char, ◌++◌ as append}
use dockge.Prelude.{String, Bool, false, List, [], ◌∷◌, eqb, not, ◌&&◌, truthy, if◌then◌else◌}

unfoldable pub push_word : String → List String → List String
unfolding truthy
push_word current words = if truthy current then current ∷ words else words

unfoldable pub split_from : Bool → Bool → String → String → List String
unfolding push_word
split_from in_single in_double current no_text = push_word current []
split_from in_single in_double current (char c s) =
    let toggled_single = split_from (not in_single) in_double current s in
    let toggled_double = split_from in_single (not in_double) current s in
    let ended = push_word current (split_from in_single in_double "" s) in
    let longer = split_from in_single in_double (append current (char c "")) s in
    if eqb (code c) 39 && not in_double
    then toggled_single
    else if eqb (code c) b'"' && not in_single
    then toggled_double
    else if eqb (code c) b' ' && (not in_single && not in_double)
    then ended
    else longer

unfoldable pub split_command : String → List String
unfolding split_from
split_command input = split_from false false "" input
