-- ===== src/Packet.antt =====
-- includes/wf_conn.h and includes/wf_conn.c: packets and their directions.
use vdeplug_wirefilter.Base.{ℕ, Bool, true, false, List, ◌≡◌, refl, if◌then◌else◌}

-- LEFT_TO_RIGHT and RIGHT_TO_LEFT, the two values that a packet's direction takes.
pub data Direction : Type 0 where
  left_to_right right_to_left : Direction

abbrev pub same_direction : Direction → Direction → Bool
same_direction left_to_right left_to_right = true
same_direction right_to_left right_to_left = true
same_direction _ _ = false

-- `struct packet_t`: the payload as bytes, and its length as the code stores it.
pub record Packet : Type 0 where
  pub buf : List ℕ
  pub len : ℕ
  pub flags : ℕ
  pub direction : Direction

-- A C array with one entry for each direction.
pub record PerDirection {ℓ} (A : Type ℓ) : Type ℓ where
  pub lr : A
  pub rl : A

module _ {ℓ} {A : Type ℓ} where
  abbrev pub at : Direction → PerDirection A → A
  at left_to_right b = b.lr
  at right_to_left b = b.rl

  abbrev pub put : Direction → A → PerDirection A → PerDirection A
  put left_to_right a b = record b { lr = a }
  put right_to_left a b = record b { rl = a }

  abbrev pub both : A → PerDirection A
  both a = record { lr = a; rl = a }

  pub at-put :
      (d d' : Direction) (a : A) (b : PerDirection A)
      → at d (put d' a b) ≡ (if same_direction d d' then a else at d b)
  at-put left_to_right left_to_right a b = refl
  at-put left_to_right right_to_left a b = refl
  at-put right_to_left left_to_right a b = refl
  at-put right_to_left right_to_left a b = refl
