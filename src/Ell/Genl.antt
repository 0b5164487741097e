-- ===== src/Ell/Genl.antt =====
-- `struct l_genl_msg`: a message under construction, seen as the tokens that are appended to it.
use mptcpd.Common.{ℕ, Bool, true, List, [], ◌∷◌, ◌++◌, ◌≡◌, refl}
use mptcpd.Events.Attributes.{Attribute}

-- An attribute, and the two ends of a nested one with its type.
pub data Token : Type 0 where
  enter : ℕ → Token
  attr : Attribute → Token
  leave : Token

-- What fails returns false; what a message then holds is left open.
pub record Genl : Type 1 where
  pub Msg : Type 0
  pub new_sized : ℕ → ℕ → Msg
  pub append_attr : Msg → Attribute → Msg × Bool
  pub enter_nested : Msg → ℕ → Msg × Bool
  pub leave_nested : Msg → Msg × Bool
  pub command : Msg → ℕ
  pub body : Msg → List Token
  pub command-new_sized : (cmd size : ℕ) → command (new_sized cmd size) ≡ cmd
  pub body-new_sized : (cmd size : ℕ) → body (new_sized cmd size) ≡ []
  pub command-append_attr : (m : Msg) (a : Attribute) → command (append_attr m a).0 ≡ command m
  pub body-append_attr :
      (m : Msg) (a : Attribute)
      → (append_attr m a).1 ≡ true
      → body (append_attr m a).0 ≡ body m ++ attr a ∷ []
  pub command-enter_nested : (m : Msg) (t : ℕ) → command (enter_nested m t).0 ≡ command m
  pub body-enter_nested :
      (m : Msg) (t : ℕ)
      → (enter_nested m t).1 ≡ true
      → body (enter_nested m t).0 ≡ body m ++ enter t ∷ []
  pub command-leave_nested : (m : Msg) → command (leave_nested m).0 ≡ command m
  pub body-leave_nested :
      (m : Msg) → (leave_nested m).1 ≡ true → body (leave_nested m).0 ≡ body m ++ leave ∷ []

-- A message as its command and its tokens, which always has room.
abbrev pub list_genl : Genl
list_genl = record {
  Msg = ℕ × List Token;
  new_sized = λ cmd size. (cmd, []);
  append_attr = λ m a. ((m.0, m.1 ++ attr a ∷ []), true);
  enter_nested = λ m t. ((m.0, m.1 ++ enter t ∷ []), true);
  leave_nested = λ m. ((m.0, m.1 ++ leave ∷ []), true);
  command = λ m. m.0;
  body = λ m. m.1;
  command-new_sized = λ cmd size. refl;
  body-new_sized = λ cmd size. refl;
  command-append_attr = λ m a. refl;
  body-append_attr = λ m a h. refl;
  command-enter_nested = λ m t. refl;
  body-enter_nested = λ m t h. refl;
  command-leave_nested = λ m. refl;
  body-leave_nested = λ m h. refl;
}
