-- ===== src/Wire/Value.antt =====
-- `computeWireValue` of includes/wf_markov.c: the value of a parameter for one packet.
use vdeplug_wirefilter.Base.{ℕ, zero, suc, ◌==◌, if◌then◌else◌, out_of_fuel}
use vdeplug_wirefilter.Conn.Monad.{M, ◌>>=◌, pure, lift, drand48, patience}
use vdeplug_wirefilter.Double.{Double}
use vdeplug_wirefilter.Markov.{MarkovNode, WireValue, wire_value, algo_uniform, algo_gauss_normal}
use vdeplug_wirefilter.Packet.{Direction}

module _ {D : Type 0} ⦃double : Double D⦄ where
  open double use {of_ℕ, add, sub, mul, div, le, eq, sqrt, log}

  -- A point of the unit disc: its x, and the square of its distance from the middle.
  unfoldable pub polar_point : ℕ → M D (D × D)
  polar_point zero = lift out_of_fuel
  polar_point (suc f) = do
    a ← drand48
    b ← drand48
    let x = sub (mul (of_ℕ 2) a) (of_ℕ 1)
    let y = sub (mul (of_ℕ 2) b) (of_ℕ 1)
    let r2 = add (mul x x) (mul y y)
    let again = polar_point f
    if le (of_ℕ 1) r2 then again else pure (x, r2)

  unfoldable pub uniform_value : WireValue D → M D D
  uniform_value wv = do
    r ← drand48
    pure (add wv.value (mul wv.plus (sub (mul r (of_ℕ 2)) (of_ℕ 1))))

  unfoldable pub gauss_value : WireValue D → M D D
  unfolding polar_point
  gauss_value wv = do
    rounds ← patience
    (x, r2) ← polar_point rounds
    let sigma = div (of_ℕ 1) (of_ℕ 3)
    let spread = sqrt (div (mul (sub (of_ℕ 0) (of_ℕ 2)) (log r2)) r2)
    pure (add wv.value (mul (mul (mul wv.plus sigma) x) spread))

  unfoldable pub compute_wire_value : MarkovNode D → ℕ → Direction → M D D
  unfolding uniform_value gauss_value
  compute_wire_value node tag d =
      let wv = wire_value node tag d in
      if eq wv.plus (of_ℕ 0)
      then pure wv.value
      else if wv.algorithm == algo_uniform
      then uniform_value wv
      else if wv.algorithm == algo_gauss_normal
      then gauss_value wv
      else pure (of_ℕ 0)
