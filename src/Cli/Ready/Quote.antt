-- ===== src/Cli/Ready/Quote.antt =====
-- The shell reads a quoted text back as it was.
use Prim.Native.Char.{Char, code}
use text.Mathlib.TextEquality.{Char-path}
use text.Mathlib.TextLemmas.{cons-append}
use kubeforward.Base.{
  ◌≡◌, refl, ap, String, ◌<>◌, Option, none, some, if◌then◌else◌, eqb, arith, Bool-cases, inl, inr,
}
use kubeforward.Cli.Ready.{quote_chars, shell_quote}

-- Where the shell stands in a word: outside of quotes, after a backslash, or inside.
pub data Place : Type 0 where
  outside escaped quoted : Place

abbrev keep : Char → Option String → Option String
keep c none = none
keep c (some rest) = some (String.◌∷◌ c rest)

-- The word that a text of single quotes and escaped characters stands for; `none` if it does not end,
-- or has a character outside of quotes that is not escaped.
abbrev pub shell_read : Place → String → Option String
shell_read outside String.[] = some ""
shell_read _ String.[] = none
shell_read outside (String.◌∷◌ c s) =
    let in_quotes = shell_read quoted s in
    let after_backslash = shell_read escaped s in
    if eqb (code c) b'\'' then in_quotes else if eqb (code c) b'\\' then after_backslash else none
shell_read escaped (String.◌∷◌ c s) = keep c (shell_read outside s)
shell_read quoted (String.◌∷◌ c s) =
    let out = shell_read outside s in
    let within = shell_read quoted s in if eqb (code c) b'\'' then out else keep c within

quote_chars-back : (value : String) → shell_read quoted (quote_chars value <> "'") ≡ some value
quote_chars-back String.[] = refl
quote_chars-back (String.◌∷◌ ch value) =
    let ih = quote_chars-back value in
    let rest = quote_chars value in
    elim (Bool-cases (eqb (code ch) b'\'')) [
      | inl q ↦
          let same : code "'" ≡ code ch = ground arith in
          rw
            (
              q,
              cons-append "'" (String.◌∷◌ "\\" (String.◌∷◌ "'" (String.◌∷◌ "'" rest))) "'",
              cons-append "\\" (String.◌∷◌ "'" (String.◌∷◌ "'" rest)) "'",
              cons-append "'" (String.◌∷◌ "'" rest) "'",
              cons-append "'" rest "'",
              ih,
            )
            (ap (λ c. some (String.◌∷◌ c value)) (Char-path "'" ch same))
      | inr q ↦ rw (q, cons-append ch rest "'", q, ih)
    ]

-- The shell reads a text of `ShellQuote` as one word, the text that was quoted, whatever characters
-- are in it.
pub shell_read-shell_quote : (value : String) → shell_read outside (shell_quote value) ≡ some value
unfolding shell_quote
shell_read-shell_quote value = quote_chars-back value
