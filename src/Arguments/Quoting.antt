-- ===== src/Arguments/Quoting.antt =====
-- Arguments that are written with escapes or in single quotes are split into what they were.
use mydbg.Base.{
  ℕ, ◌≡◌, refl, sym, ap, ◌∙◌, Bool, true, false, not, List, [], ◌∷◌, ◌++◌, map, append-nil,
  append_assoc, arith, ◌==◌, all, All,
}
use mydbg.Base.Bytes.{Bytes, is_space}
use mydbg.Arguments.{
  Splitter, is_empty, push_current, push_argument, split_character, split_characters, finish,
  split_arguments,
}

-- How an argument is written: a backslash before every byte, or single quotes around it.
pub data Written : Type 0 where
  escaped quoted : Bytes → Written

abbrev pub meant : Written → Bytes
meant (escaped text) = text
meant (quoted text) = text

abbrev escapes : Bytes → Bytes
escapes [] = []
escapes (c ∷ cs) = b'\\' ∷ c ∷ escapes cs

abbrev argument_text : Written → Bytes
argument_text (escaped text) = escapes text
argument_text (quoted text) = 39 ∷ (text ++ (39 ∷ []))

-- Every argument with a space behind it
abbrev pub command_text : List Written → Bytes
command_text [] = []
command_text (w ∷ ws) = argument_text w ++ (b' ' ∷ command_text ws)

abbrev pub no_quote : Bytes → Bool
no_quote = all (λ c. not (c == 39))

-- An argument is not empty, and has no single quote where it stands between such.
abbrev pub CanWrite : Written → Type 0
CanWrite (escaped text) = is_empty text ≡ false
CanWrite (quoted text) = (is_empty text ≡ false) × (no_quote text ≡ true)

abbrev pub outside : List Bytes → Bytes → Splitter
outside arguments current = record {
  arguments = arguments;
  current = current;
  quote = 0;
  escaped = false;
}

abbrev inside : List Bytes → Bytes → Splitter
inside arguments current = record {
  arguments = arguments;
  current = current;
  quote = 39;
  escaped = false;
}

split-escapes :
    (arguments : List Bytes) (current text rest : Bytes)
    → split_characters (outside arguments current) (escapes text ++ rest)
      ≡ split_characters (outside arguments (current ++ text)) rest
unfolding split_characters split_character push_current
split-escapes arguments current [] rest =
    ap (λ (t : Bytes). split_characters (outside arguments t) rest) (sym (append-nil current))
split-escapes arguments current (c ∷ text) rest =
    split-escapes arguments (current ++ (c ∷ [])) text rest
    ∙ ap (λ (t : Bytes). split_characters (outside arguments t) rest)
        (append_assoc current (c ∷ []) text)

inside-push :
    (arguments : List Bytes) (current : Bytes) (c : ℕ)
    → (c == 39) ≡ false
    → split_character (inside arguments current) c ≡ inside arguments (current ++ (c ∷ []))
unfolding split_character push_current
inside-push arguments current c h = ground (arith, h)

split-quoted :
    (arguments : List Bytes) (current text rest : Bytes)
    → no_quote text ≡ true
    → split_characters (inside arguments current) (text ++ (39 ∷ rest))
      ≡ split_characters (outside arguments (current ++ text)) rest
unfolding split_characters
split-quoted arguments current [] rest h =
    ap (λ (t : Bytes). split_characters (outside arguments t) rest) (sym (append-nil current))
split-quoted arguments current (c ∷ text) rest h =
    ap (λ (s : Splitter). split_characters s (text ++ (39 ∷ rest)))
      (inside-push arguments current c (ground arith))
    ∙ split-quoted arguments (current ++ (c ∷ [])) text rest (ground arith)
    ∙ ap (λ (t : Bytes). split_characters (outside arguments t) rest)
        (append_assoc current (c ∷ []) text)

space-pushes :
    (arguments : List Bytes) (text : Bytes)
    → is_empty text ≡ false
    → split_character (outside arguments text) b' ' ≡ outside (arguments ++ (text ∷ [])) []
unfolding split_character push_argument is_space
space-pushes arguments [] h = absurd (ground arith)
space-pushes arguments (c ∷ cs) h = refl

CanWrite-meant : (w : Written) → CanWrite w → is_empty (meant w) ≡ false
CanWrite-meant (escaped text) h = h
CanWrite-meant (quoted text) h = h.0

split-argument :
    (arguments : List Bytes) (w : Written) (rest : Bytes)
    → CanWrite w
    → split_characters (outside arguments []) (argument_text w ++ rest)
      ≡ split_characters (outside arguments (meant w)) rest
unfolding split_characters split_character
split-argument arguments (escaped text) rest h = split-escapes arguments [] text rest
split-argument arguments (quoted text) rest h =
    ap (λ (t : Bytes). split_characters (inside arguments []) t) (append_assoc text (39 ∷ []) rest)
    ∙ split-quoted arguments [] text rest h.1

split-command :
    (arguments : List Bytes) (ws : List Written)
    → All CanWrite ws
    → split_characters (outside arguments []) (command_text ws)
      ≡ outside (arguments ++ map meant ws) []
unfolding split_characters
split-command arguments [] h = ap (λ (t : List Bytes). outside t []) (sym (append-nil arguments))
split-command arguments (w ∷ ws) (h, hs) =
    split-argument arguments w (b' ' ∷ command_text ws) h
    ∙ ap (λ (s : Splitter). split_characters s (command_text ws))
        (space-pushes arguments (meant w) (CanWrite-meant w h))
    ∙ split-command (arguments ++ (meant w ∷ [])) ws hs
    ∙ ap (λ (t : List Bytes). outside t []) (append_assoc arguments (meant w ∷ []) (map meant ws))

-- A command whose arguments are each escaped byte by byte, or put in single quotes if they have none
-- themselves, and have a space behind them, is split into these arguments. None of them is empty.
pub split_arguments-command_text :
    (ws : List Written) → All CanWrite ws → split_arguments (command_text ws) ≡ map meant ws
unfolding split_arguments finish push_argument
split_arguments-command_text ws h = ap finish (split-command [] ws h)
