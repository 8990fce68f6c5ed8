-- ===== src/Net/Http/Codes.antt =====
-- `Code`, `Method::Type` and their conversions: include/mif/net/http/codes.h and methods.h, and
-- `ConvertCode` and `ConvertMethodType` of src/mif/net/http/detail/utility.cpp.
use mif.Prelude.{
  nat_beq, Bool-cases, if◌then◌else◌, invalid_argument, Result, ok, throws, All, ℕ, ◌≡◌, refl, ◌↔◌,
  inl, inr, List, [], ◌∷◌, arith,
}

-- `Code`
pub data Code : Type 0 where
  ok_code no_content move_perm move_temp not_modified bad_request not_found bad_method : Code
  unauthorized internal not_implemented unavailable : Code

-- The number of a `boost::beast::http::status`
abbrev pub Status : Type 0
Status = ℕ

-- `ConvertCode(Code)`
pub to_status : Code → Status
to_status ok_code = 200
to_status no_content = 204
to_status move_perm = 301
to_status move_temp = 302
to_status not_modified = 304
to_status bad_request = 400
to_status not_found = 404
to_status unauthorized = 401
to_status bad_method = 405
to_status internal = 500
to_status not_implemented = 501
to_status unavailable = 503

-- `ConvertCode(status)`: the labels of the switch, in order
labels : List (Status × Code)
labels =
    (200, ok_code)
    ∷ (204, no_content)
    ∷ (301, move_perm)
    ∷ (302, move_temp)
    ∷ (304, not_modified)
    ∷ (400, bad_request)
    ∷ (404, not_found)
    ∷ (401, unauthorized)
    ∷ (405, bad_method)
    ∷ (500, internal)
    ∷ (501, not_implemented)
    ∷ (503, unavailable)
    ∷ []

switch : List (Status × Code) → Status → Result Code
switch [] s = throws invalid_argument
switch ((label, code) ∷ rest) s = if nat_beq s label then ok code else switch rest s

pub to_code : Status → Result Code
unfolding labels switch
to_code s = switch labels s

-- `Method::Type`; the source spells the seventh `Trqce`.
pub data Method : Type 0 where
  get_method post_method head_method put_method delete_method options_method : Method
  trace_method connect_method patch_method : Method

-- `boost::beast::http::verb`: those that the switch names, and any other.
pub data Verb : Type 0 where
  get post head put delete options trace connect patch : Verb
  other_verb : ℕ → Verb

-- `ConvertMethodType(verb)`
unfoldable pub to_method : Verb → Result Method
to_method get = ok get_method
to_method post = ok post_method
to_method head = ok head_method
to_method put = ok put_method
to_method delete = ok delete_method
to_method options = ok options_method
to_method trace = ok trace_method
to_method connect = ok connect_method
to_method patch = ok patch_method
to_method (other_verb n) = throws invalid_argument

-- `ConvertMethodType(Method::Type)`
pub to_verb : Method → Verb
to_verb get_method = get
to_verb post_method = post
to_verb head_method = head
to_verb put_method = put
to_verb delete_method = delete
to_verb options_method = options
to_verb trace_method = trace
to_verb connect_method = connect
to_verb patch_method = patch

to_code-to_status : (c : Code) → to_code (to_status c) ≡ ok c
unfolding to_code to_status
to_code-to_status ok_code = refl
to_code-to_status no_content = refl
to_code-to_status move_perm = refl
to_code-to_status move_temp = refl
to_code-to_status not_modified = refl
to_code-to_status bad_request = refl
to_code-to_status not_found = refl
to_code-to_status bad_method = refl
to_code-to_status unauthorized = refl
to_code-to_status internal = refl
to_code-to_status not_implemented = refl
to_code-to_status unavailable = refl

-- A label of a switch and the code under it
abbrev Agrees : Status × Code → Type 0
Agrees l = to_status l.1 ≡ l.0

switch_sound :
    (ls : List (Status × Code)) (s : Status) (c : Code)
    → All Agrees ls
    → switch ls s ≡ ok c
    → to_status c ≡ s
unfolding switch
switch_sound [] s c h e = cc
switch_sound ((label, code) ∷ rest) s c h e = elim (Bool-cases (nat_beq s label)) [
  | inl same ↦ ground arith
  | inr other ↦ switch_sound rest s c h.1 (ground arith)
]

labels-Agrees : All Agrees labels
unfolding labels to_status
labels-Agrees = omega arith

-- A status converts to a code exactly when the code converts to it.
pub to_code_iff : (s : Status) (c : Code) → (to_code s ≡ ok c) ↔ (to_status c ≡ s)
unfolding to_code
to_code_iff s c = (switch_sound labels s c labels-Agrees, λ e. rw (← e) (to_code-to_status c))

to_method-to_verb : (m : Method) → to_method (to_verb m) ≡ ok m
unfolding to_method to_verb
to_method-to_verb get_method = refl
to_method-to_verb post_method = refl
to_method-to_verb head_method = refl
to_method-to_verb put_method = refl
to_method-to_verb delete_method = refl
to_method-to_verb options_method = refl
to_method-to_verb trace_method = refl
to_method-to_verb connect_method = refl
to_method-to_verb patch_method = refl

to_method_sound : (v : Verb) (m : Method) → to_method v ≡ ok m → to_verb m ≡ v
unfolding to_method to_verb
to_method_sound get m e = ground arith
to_method_sound post m e = ground arith
to_method_sound head m e = ground arith
to_method_sound put m e = ground arith
to_method_sound delete m e = ground arith
to_method_sound options m e = ground arith
to_method_sound trace m e = ground arith
to_method_sound connect m e = ground arith
to_method_sound patch m e = ground arith
to_method_sound (other_verb n) m e = cc

-- A verb converts to a method exactly when the method converts to it.
pub to_method_iff : (v : Verb) (m : Method) → (to_method v ≡ ok m) ↔ (to_verb m ≡ v)
to_method_iff v m = (to_method_sound v m, λ e. rw (← e) (to_method-to_verb m))
