-- ===== src/Providers.antt =====
-- internal/controller/backend: the vendors' providers. Each acts on a world that holds its object
-- in a cell, as the pointer that its package registers.
pub mod Dummy
pub mod Haproxy
pub mod F5
pub mod Netscaler
use lbconfig_operator.Base.{String, ◌≡◌, Option}

pub record Cell (S A : Type 0) : Type 0 where
  pub get : S → A
  pub set : A → S → S
  pub get-set : (a : A) (s : S) → get (set a s) ≡ a

-- What a call of a vendor's client returns: the answer, or nil, and the text of the error, or nil.
pub record Reply (A : Type 0) : Type 0 where
  pub value : Option A
  pub error : Option String

abbrev pub Call : Type 0 → Type 0 → Type 0
Call S A = S → Reply A × S
