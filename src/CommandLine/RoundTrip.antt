-- ===== src/CommandLine/RoundTrip.antt =====
-- internal/commands/commands.go: the parser finds the words that a command line is written from.
use mathlib.Core.List.{append-nil, append_assoc}
use lora_gateway_bridge.Common.{
  ℕ, ◌<◌, ◌≡◌, ◌≢◌, ◌⊎◌, refl, sym, ap, ◌∙◌, false, List, [], ◌∷◌, ◌++◌, map, All, Bytes, Result,
  ok, arith,
}
use lora_gateway_bridge.CommandLine.{
  ScanState, start, quotes, arg, Scanner, string_of, step, scan, result_of, initial,
  parse_command_line, extend, end_arg, open_step, plain_step, is_blank, last_arg, CommandLineError,
}

-- An ASCII character that is not blank, a quote or a backslash.
pub record IsPlain (c : ℕ) : Type 0 where
  pub ascii : c < 128
  pub not_blank : (c ≢ 32) × (c ≢ 9)
  pub not_quote : (c ≢ 34) × (c ≢ 39)
  pub not_escape : c ≢ 92

-- A word that is written as it is, or between two equal quotes.
pub data Word : Type 0 where
  bare : ℕ → Bytes → Word
  quoted : ℕ → Bytes → Word

abbrev pub text : Word → Bytes
text (bare c w) = c ∷ w
text (quoted q w) = w

abbrev pub print : Word → Bytes
print (bare c w) = c ∷ w
print (quoted q w) = q ∷ w ++ (q ∷ [])

abbrev pub print_rest : List Word → Bytes
print_rest [] = []
print_rest (t ∷ ts) = 32 ∷ print t ++ print_rest ts

-- A bare word is plain; a quoted word is ASCII without its quote.
abbrev pub IsPrintable : Word → Type 0
IsPrintable (bare c w) = IsPlain c × All IsPlain w
IsPrintable (quoted q w) = ((q ≡ 34) ⊎ (q ≡ 39)) × All (λ c. (c < 128) × (c ≢ q)) w

abbrev scanner : List Bytes → ScanState → Bytes → ℕ → Scanner
scanner args state current q = record {
  args = args;
  state = state;
  current = current;
  quote = q;
  escape_next = false;
}

step-arg :
    (args : List Bytes) (w : Bytes) (q c : ℕ)
    → IsPlain c
    → step arg (scanner args arg w q) c ≡ scanner args arg (w ++ (c ∷ [])) q
unfolding step open_step plain_step is_blank extend string_of
step-arg args w q c p = ground (arith, p.ascii, p.not_blank, p.not_quote, p.not_escape)

step-start :
    (args : List Bytes) (q c : ℕ)
    → IsPlain c
    → step start (scanner args start [] q) c ≡ scanner args arg (c ∷ []) q
unfolding step open_step plain_step is_blank extend string_of
step-start args q c p = ground (arith, p.ascii, p.not_blank, p.not_quote, p.not_escape)

step-quotes :
    (args : List Bytes) (w : Bytes) (q c : ℕ)
    → c < 128
    → c ≢ q
    → step quotes (scanner args quotes w q) c ≡ scanner args quotes (w ++ (c ∷ [])) q
unfolding step extend string_of
step-quotes args w q c a n = ground arith

step-open :
    (args : List Bytes) (p q : ℕ)
    → (q ≡ 34) ⊎ (q ≡ 39)
    → step start (scanner args start [] p) q ≡ scanner args quotes [] q
unfolding step open_step
step-open args p q a = ground arith

step-close :
    (args : List Bytes) (w : Bytes) (q : ℕ)
    → step quotes (scanner args quotes w q) q ≡ scanner (args ++ (w ∷ [])) start [] q
unfolding step end_arg
step-close args w q = ground arith

scan-step :
    (s s' : Scanner) (c : ℕ) (rest : Bytes)
    → step s.state s c ≡ s'
    → scan s (c ∷ rest) ≡ scan s' rest
unfolding scan
scan-step s s' c rest e = ap (λ x. scan x rest) e

scan-arg :
    (args : List Bytes) (w v rest : Bytes) (q : ℕ)
    → All IsPlain v
    → scan (scanner args arg w q) (v ++ rest) ≡ scan (scanner args arg (w ++ v) q) rest
scan-arg args w [] rest q p = rw append-nil refl
scan-arg args w (c ∷ v) rest q p =
    scan-step _ (scanner args arg (w ++ (c ∷ [])) q) c (v ++ rest) (step-arg args w q c p.0)
    ∙ scan-arg args (w ++ (c ∷ [])) v rest q p.1
    ∙ ap (λ x. scan (scanner args arg x q) rest) (append_assoc w (c ∷ []) v)

scan-quotes :
    (args : List Bytes) (w v rest : Bytes) (q : ℕ)
    → All (λ c. (c < 128) × (c ≢ q)) v
    → scan (scanner args quotes w q) (v ++ (q ∷ rest))
      ≡ scan (scanner (args ++ ((w ++ v) ∷ [])) start [] q) rest
scan-quotes args w [] rest q p =
    scan-step _ (scanner (args ++ (w ∷ [])) start [] q) q rest (step-close args w q)
    ∙ rw append-nil refl
scan-quotes args w (c ∷ v) rest q p =
    scan-step _ (scanner args quotes (w ++ (c ∷ [])) q) c (v ++ (q ∷ rest))
      (step-quotes args w q c p.0.0 p.0.1)
    ∙ scan-quotes args (w ++ (c ∷ [])) v rest q p.1
    ∙ ap (λ x. scan (scanner (args ++ (x ∷ [])) start [] q) rest) (append_assoc w (c ∷ []) v)

-- the end of `parse_command_line`
abbrev finish : Scanner → Result CommandLineError (List Bytes)
finish s = result_of s.state s

-- What is still to be read behind a bare word, and behind a quoted word or at the start.
record Tails (ts : List Word) : Type 0 where
  behind_bare :
      (args : List Bytes) (c q : ℕ) (w : Bytes)
      → finish (scan (scanner args arg (c ∷ w) q) (print_rest ts))
        ≡ ok (args ++ ((c ∷ w) ∷ map text ts))
  behind_quoted :
      (args : List Bytes) (q : ℕ)
      → finish (scan (scanner args start [] q) (print_rest ts)) ≡ ok (args ++ map text ts)

scan-word :
    (args : List Bytes) (q : ℕ) (t : Word) (ts : List Word)
    → IsPrintable t
    → Tails ts
    → finish (scan (scanner args start [] q) (print t ++ print_rest ts))
      ≡ ok (args ++ (text t ∷ map text ts))
scan-word args q (bare c w) ts p tails =
    ap finish (
      scan-step _ (scanner args arg (c ∷ []) q) c (w ++ print_rest ts) (step-start args q c p.0)
      ∙ scan-arg args (c ∷ []) w (print_rest ts) q p.1)
    ∙ tails.behind_bare args c q w
scan-word args q (quoted r w) ts p tails =
    ap (λ l. finish (scan (scanner args start [] q) (r ∷ l)))
      (append_assoc w (r ∷ []) (print_rest ts))
    ∙ ap finish (
        scan-step _ (scanner args quotes [] r) r (w ++ (r ∷ print_rest ts)) (step-open args q r p.0)
        ∙ scan-quotes args [] w (print_rest ts) r p.1)
    ∙ tails.behind_quoted (args ++ (w ∷ [])) r
    ∙ ap (λ l. ok l) (append_assoc args (w ∷ []) (map text ts))

step-arg_blank :
    (args : List Bytes) (w : Bytes) (q : ℕ)
    → step arg (scanner args arg w q) 32 ≡ scanner (args ++ (w ∷ [])) start [] q
unfolding step open_step plain_step is_blank end_arg
step-arg_blank args w q = refl

step-start_blank :
    (args : List Bytes) (q : ℕ) → step start (scanner args start [] q) 32 ≡ scanner args start [] q
unfolding step open_step plain_step is_blank
step-start_blank args q = refl

words-Tails : (ts : List Word) → All IsPrintable ts → Tails ts
unfolding scan result_of last_arg
words-Tails [] p = record {
  behind_bare = λ args c q w. refl;
  behind_quoted = λ args q. rw append-nil refl;
}
words-Tails (t ∷ ts) p =
    let later = words-Tails ts p.1 in
    record {
      behind_bare = λ args c q w.
          ap finish (
            scan-step (scanner args arg (c ∷ w) q) (scanner (args ++ ((c ∷ w) ∷ [])) start [] q) 32
              (print t ++ print_rest ts) (step-arg_blank args (c ∷ w) q))
          ∙ scan-word (args ++ ((c ∷ w) ∷ [])) q t ts p.0 later
          ∙ ap (λ l. ok l) (append_assoc args ((c ∷ w) ∷ []) (text t ∷ map text ts));
      behind_quoted = λ args q.
          ap finish (
            scan-step (scanner args start [] q) (scanner args start [] q) 32
              (print t ++ print_rest ts) (step-start_blank args q))
          ∙ scan-word args q t ts p.0 later;
    }

step-initial : (c : ℕ) → c < 128 → step start initial c ≡ scanner [] start (c ∷ []) 34
unfolding step open_step extend string_of
step-initial c a = ground arith

step-second :
    (c d : ℕ)
    → IsPlain d
    → step start (scanner [] start (c ∷ []) 34) d ≡ scanner [] arg (c ∷ d ∷ []) 34
unfolding step open_step plain_step is_blank extend string_of
step-second c d p = ground (arith, p.ascii, p.not_blank, p.not_quote, p.not_escape)

step-short_blank :
    (c : ℕ) → step start (scanner [] start (c ∷ []) 34) 32 ≡ scanner [] start (c ∷ []) 34
unfolding step open_step plain_step is_blank
step-short_blank c = refl

-- A command that begins with an ASCII character, a plain character and further plain characters, and
-- goes on with words, each behind one space, is parsed into these words: a word may be written as
-- it is, if it is plain and not empty, or between single or double quotes, if it is ASCII and
-- without that quote.
pub parse-print_command_line :
    (c d : ℕ) (w : Bytes) (ts : List Word)
    → c < 128
    → IsPlain d
    → All IsPlain w
    → All IsPrintable ts
    → parse_command_line (c ∷ d ∷ w ++ print_rest ts) ≡ ok ((c ∷ d ∷ w) ∷ map text ts)
unfolding parse_command_line
parse-print_command_line c d w ts a p pw pts =
    ap finish (
      scan-step initial (scanner [] start (c ∷ []) 34) c (d ∷ w ++ print_rest ts) (step-initial c a)
      ∙ scan-step (scanner [] start (c ∷ []) 34) (scanner [] arg (c ∷ d ∷ []) 34) d
          (w ++ print_rest ts) (step-second c d p)
      ∙ scan-arg [] (c ∷ d ∷ []) w (print_rest ts) 34 pw)
    ∙ (words-Tails ts pts).behind_bare [] c 34 (d ∷ w)

-- A single character, a space and a bare word are parsed into one argument, which is the word behind
-- the character.
pub parse-short_command :
    (c d : ℕ) (w : Bytes)
    → c < 128
    → IsPlain d
    → All IsPlain w
    → parse_command_line (c ∷ 32 ∷ d ∷ w) ≡ ok ((c ∷ d ∷ w) ∷ [])
unfolding parse_command_line
parse-short_command c d w a p pw =
    ap finish (
      scan-step initial (scanner [] start (c ∷ []) 34) c (32 ∷ d ∷ w) (step-initial c a)
      ∙ scan-step (scanner [] start (c ∷ []) 34) (scanner [] start (c ∷ []) 34) 32 (d ∷ w)
          (step-short_blank c)
      ∙ scan-step (scanner [] start (c ∷ []) 34) (scanner [] arg (c ∷ d ∷ []) 34) d w
          (step-second c d p)
      ∙ ap (λ l. scan (scanner [] arg (c ∷ d ∷ []) 34) l) (sym (append-nil w))
      ∙ scan-arg [] (c ∷ d ∷ []) w [] 34 pw)
    ∙ (words-Tails [] tt).behind_bare [] c 34 (d ∷ w)
