-- ===== src/Net/Http/Target/Tests.antt =====
-- A target at a concrete input.
use mif.Prelude.{ℕ, List, [], ◌∷◌}

-- "/a?x=1"
abbrev url : List ℕ
url = b'/' ∷ b'a' ∷ b'?' ∷ b'x' ∷ b'=' ∷ b'1' ∷ []
