-- ===== src/Serialization/Json/Codec.antt =====
-- A JSON library of lists, with which the theorems are tried: objects as lists of members, and a
-- text of numbers in place of the JSON text, with the laws that the code relies on.
use mif.Prelude.{
  ltb, if◌then◌else◌, ◌==◌, length, take, drop, length-append, take-append_left, drop-append_left,
  bytes_beq_iff, ℕ, zero, suc, ◌+◌, ◌^◌, ◌≤◌, ◌<◌, ◌≡◌, refl, ◌≢◌, true, false, Option, none, some,
  List, [], ◌∷◌, ◌++◌, append-nil, append_assoc, arith, bytes_eq, nat_eq,
}
use mif.Serialization.Json.{
  is_empty, Json, Items, no_items, item, Members, no_members, member, Outcome, done, fails,
  parse_error, reparsed, reparsed_items, reparsed_members, reparsed_if, Library, ◌>>=◌,
}

unfoldable mutual
  pub print : Json → List ℕ
  print Json.null = 0 ∷ []
  print (Json.boolean b) = 1 ∷ (if b then 1 else 0) ∷ []
  print (Json.int64 n) = 2 ∷ n ∷ []
  print (Json.uint64 n) = if ltb n (2 ^ 63) then 2 ∷ n ∷ [] else 3 ∷ n ∷ []
  print (Json.double d) = 4 ∷ d ∷ []
  print (Json.string text) = 5 ∷ length text ∷ text
  print (Json.array js) = 6 ∷ print_items js
  print (Json.object m) = 7 ∷ print_members m

  print_items : Items → List ℕ
  print_items no_items = 0 ∷ []
  print_items (item j js) = 1 ∷ (print j ++ print_items js)

  print_members : Members → List ℕ
  print_members no_members = 0 ∷ []
  print_members (member k j m) = suc (length k) ∷ (k ++ (print j ++ print_members m))

unfoldable mutual
  parse_value : ℕ → List ℕ → Outcome (Json × List ℕ)
  parse_value zero text = fails parse_error
  parse_value (suc f) (zero ∷ text) = done (Json.null, text)
  parse_value (suc f) ((suc zero) ∷ b ∷ text) = done (Json.boolean (b == 1), text)
  parse_value (suc f) ((suc (suc zero)) ∷ n ∷ text) = done (Json.int64 n, text)
  parse_value (suc f) ((suc (suc (suc zero))) ∷ n ∷ text) = done (Json.uint64 n, text)
  parse_value (suc f) ((suc (suc (suc (suc zero)))) ∷ d ∷ text) = done (Json.double d, text)
  parse_value (suc f) ((suc (suc (suc (suc (suc zero))))) ∷ n ∷ text) =
      done (Json.string (take n text), drop n text)
  parse_value (suc f) ((suc (suc (suc (suc (suc (suc zero)))))) ∷ text) =
      parse_items f text >>= λ (js, rest). done (Json.array js, rest)
  parse_value (suc f) ((suc (suc (suc (suc (suc (suc (suc zero))))))) ∷ text) =
      parse_members f text >>= λ (m, rest). done (Json.object m, rest)
  parse_value (suc f) _ = fails parse_error

  parse_items : ℕ → List ℕ → Outcome (Items × List ℕ)
  parse_items zero text = fails parse_error
  parse_items (suc f) [] = fails parse_error
  parse_items (suc f) (zero ∷ text) = done (no_items, text)
  parse_items (suc f) (suc n ∷ text) = parse_value f text >>= λ (j, rest).
      parse_items f rest >>= λ (js, last). done (item j js, last)

  parse_members : ℕ → List ℕ → Outcome (Members × List ℕ)
  parse_members zero text = fails parse_error
  parse_members (suc f) [] = fails parse_error
  parse_members (suc f) (zero ∷ text) = done (no_members, text)
  parse_members (suc f) (suc n ∷ text) = parse_value f (drop n text) >>= λ (j, rest).
      parse_members f rest >>= λ (m, last). done (member (take n text) j m, last)

unfoldable pub parse : List ℕ → Outcome Json
unfolding parse_value
parse text = parse_value (length text) text >>= λ (j, rest). done j

abbrev find : List ℕ → Members → Option Json
find k no_members = none
find k (member name j m) = if k == name then some j else find k m

abbrev set : List ℕ → Json → Members → Members
set k j no_members = member k j no_members
set k j (member name i m) = if k == name then member name j m else member name i (set k j m)

pub find-set : (k : List ℕ) (j : Json) (m : Members) → find k (set k j m) ≡ some j
find-set k j no_members = ground (arith, bytes_beq_iff k k)
find-set k j (member name i m) = ground (arith, find-set k j m)

pub find-set_other : (k q : List ℕ) (j : Json) (m : Members) → k ≢ q → find q (set k j m) ≡ find q m
find-set_other k q j no_members h = ground (arith, bytes_beq_iff q k)
find-set_other k q j (member name i m) h =
    ground (arith, find-set_other k q j m h, bytes_beq_iff k name, bytes_beq_iff q name)

unfoldable pub remove : List ℕ → Members → Members
remove k no_members = no_members
remove k (member name i m) = if k == name then m else member name i (remove k m)

pub find-remove_other : (k q : List ℕ) (m : Members) → k ≢ q → find q (remove k m) ≡ find q m
unfolding remove
find-remove_other k q no_members h = refl
find-remove_other k q (member name i m) h =
    ground (arith, find-remove_other k q m h, bytes_beq_iff k name, bytes_beq_iff q name)

pub find-reparsed :
    (k : List ℕ) (m : Members) → find k (reparsed_members m) ≡ reparsed_if (find k m)
unfolding reparsed
find-reparsed k no_members = refl
find-reparsed k (member name j m) = ground (arith, find-reparsed k m)

-- The library with these
abbrev pub library : Library
library = record {
  find = find;
  set = set;
  find-set = find-set;
  find-set_other = find-set_other;
  find-no_members = λ k. refl;
  remove = remove;
  find-remove_other = find-remove_other;
  find-reparsed = find-reparsed;
  print = print;
  parse = parse;
  double_to_string = λ d. [];
  int64_to_double = λ n. n;
  uint64_to_double = λ n. n;
  extract_hex = λ stream. (none, none);
}

length-print_pos : (j : Json) → 0 < length (print j)
unfolding print
length-print_pos (Json.uint64 n) = ground arith
length-print_pos _ = omega arith

-- A printed value is read at the front of any text, with as much fuel as it is long.
mutual
  unfolding print parse_value reparsed

  parse_value-print :
      (j : Json) (f : ℕ) (rest : List ℕ)
      → length (print j) ≤ f
      → parse_value f (print j ++ rest) ≡ done (reparsed j, rest)
  parse_value-print j zero rest h = absurd (omega (arith, length-print_pos j))
  parse_value-print Json.null (suc f) rest h = refl
  parse_value-print (Json.boolean true) (suc f) rest h = refl
  parse_value-print (Json.boolean false) (suc f) rest h = refl
  parse_value-print (Json.int64 n) (suc f) rest h = refl
  parse_value-print (Json.uint64 n) (suc f) rest h = ground arith
  parse_value-print (Json.double d) (suc f) rest h = refl
  parse_value-print (Json.string text) (suc f) rest h =
      rw (take-append_left text rest, drop-append_left text rest)
  parse_value-print (Json.array js) (suc f) rest h = rw (parse_items-print js f rest (omega arith))
  parse_value-print (Json.object m) (suc f) rest h = rw (parse_members-print m f rest (omega arith))

  parse_items-print :
      (js : Items) (f : ℕ) (rest : List ℕ)
      → length (print_items js) ≤ f
      → parse_items f (print_items js ++ rest) ≡ done (reparsed_items js, rest)
  parse_items-print no_items zero rest h = absurd (omega arith)
  parse_items-print (item j js) zero rest h = absurd (omega arith)
  parse_items-print no_items (suc f) rest h = refl
  parse_items-print (item j js) (suc f) rest h =
      let size : length (print j) + length (print_items js) ≤ f =
        omega (arith, length-append (print j) (print_items js)) in
      rw (
        append_assoc (print j) (print_items js) rest,
        parse_value-print j f (print_items js ++ rest) (omega arith),
        parse_items-print js f rest (omega arith),
      )

  parse_members-print :
      (m : Members) (f : ℕ) (rest : List ℕ)
      → length (print_members m) ≤ f
      → parse_members f (print_members m ++ rest) ≡ done (reparsed_members m, rest)
  parse_members-print no_members zero rest h = absurd (omega arith)
  parse_members-print (member k j m) zero rest h = absurd (omega arith)
  parse_members-print no_members (suc f) rest h = refl
  parse_members-print (member k j m) (suc f) rest h =
      let size : length (print j) + length (print_members m) ≤ f = omega (
        arith,
        length-append k (print j ++ print_members m),
        length-append (print j) (print_members m),
      ) in
      rw (
        append_assoc k (print j ++ print_members m) rest,
        append_assoc (print j) (print_members m) rest,
        take-append_left k (print j ++ (print_members m ++ rest)),
        drop-append_left k (print j ++ (print_members m ++ rest)),
        parse_value-print j f (print_members m ++ rest) (omega arith),
        parse_members-print m f rest (omega arith),
      )

pub print_filled : (j : Json) → is_empty (print j) ≡ false
print_filled j = filled (print j) (length-print_pos j)
  where
    filled : (text : List ℕ) → 0 < length text → is_empty text ≡ false
    filled [] h = absurd (omega arith)
    filled (b ∷ text) h = refl

-- The law that the theorems on texts ask for
pub parse-print : (j : Json) → parse (print j) ≡ done (reparsed j)
unfolding parse
parse-print j =
    let red : parse_value (length (print j)) (print j ++ []) ≡ done (reparsed j, []) =
      parse_value-print j (length (print j)) [] (omega arith) in
    rw (rw append-nil at red)
