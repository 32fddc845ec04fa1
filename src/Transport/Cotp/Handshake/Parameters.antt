-- ===== src/Transport/Cotp/Handshake/Parameters.antt =====
-- The parameters of a CR and of a CC, read back by the loops of `Accept` and `parseParams`.
use go_iec.Base.{
  ℕ, zero, suc, ◌+◌, ◌%◌, ◌^◌, ◌≤◌, ◌<◌, ◌≡◌, refl, sym, ◌∙◌, ap, false, some, List, [], ◌∷◌, ◌++◌,
  append-nil, length, take, length-append, take-length_append, drop-length_append, ltb, ok, ◌>>=◌,
  bit_and, arith,
}
use go_iec.Transport.Cotp.{Conn, clamp_size_code, parse_header}
use go_iec.Transport.Cotp.Handshake.{
  param_tpdu_size, param_src_tsap, param_dst_tsap, copy_octets, write_param, with_indicator,
  lower_size, parse_params, accept_param, accept_params,
}

pub parse_header-with_indicator :
    (typ : ℕ) (rest : List ℕ)
    → length rest < 255
    → parse_header (with_indicator (typ ∷ rest)) ≡ ok (length rest + 1, bit_and typ 0xf0, rest)
unfolding parse_header with_indicator
parse_header-with_indicator typ rest h = ground (arith, take_all rest)
  where
    take_all : (xs : List ℕ) → take (length xs) xs ≡ xs
    take_all xs = rw (append-nil xs) at (take-length_append xs [])

-- One round of the loop of `Accept`, on a parameter that `writeParam` wrote.
accept_params-param :
    (fuel code : ℕ) (val ys : List ℕ) (st : ℕ × Conn)
    → length val < 256
    → accept_params (suc fuel) (write_param code val ++ ys) st
      ≡ (accept_param code (length val) val st >>= (λ st'. accept_params fuel ys st'))
unfolding accept_params write_param
accept_params-param fuel code val ys st h =
    let len : length val % 256 ≡ length val = omega arith in
    let fits : ltb (length (val ++ ys)) (length val) ≡ false =
      ground (arith, length-append val ys) in
    rw (len, fits, take-length_append val ys, drop-length_append val ys)

accept_params_end : (fuel : ℕ) (st : ℕ × Conn) → accept_params (suc fuel) [] st ≡ ok st
unfolding accept_params
accept_params_end fuel st = refl

parse_params-param :
    (fuel code : ℕ) (val ys : List ℕ) (m : ℕ)
    → length val < 256
    → parse_params (suc fuel) (write_param code val ++ ys) m
      ≡ parse_params fuel ys (lower_size code (length val) val m)
unfolding parse_params write_param
parse_params-param fuel code val ys m h =
    let len : length val % 256 ≡ length val = omega arith in
    let fits : ltb (length (val ++ ys)) (length val) ≡ false =
      ground (arith, length-append val ys) in
    rw (len, fits, take-length_append val ys, drop-length_append val ys)

parse_params_end : (fuel m : ℕ) → parse_params fuel [] m ≡ m
unfolding parse_params
parse_params_end zero m = refl
parse_params_end (suc fuel) m = refl

-- A transport selector as the profile allows it.
pub record IsSelector (val : List ℕ) : Type 0 where
  pub given : 0 < length val
  pub short : length val ≤ 32

copy_given : (val : List ℕ) → 0 < length val → copy_octets val ≡ some val
copy_given [] h = elim h [ ]
copy_given (b ∷ bs) h = refl

-- The parameters of a CR, and of a CC.
unfoldable pub params : ℕ → List ℕ → List ℕ → List ℕ
params code one two =
    write_param param_tpdu_size (code ∷ [])
    ++ (write_param param_src_tsap one ++ write_param param_dst_tsap two)

pub length-params :
    (code : ℕ) (one two : List ℕ) → length (params code one two) ≡ length one + length two + 7
unfolding params write_param
length-params code one two =
    omega (arith, length-append one (param_dst_tsap ∷ length two % 256 ∷ two))

clamp_bounds : (k : ℕ) → 7 ≤ k → k ≤ 11 → clamp_size_code k ≡ k
unfolding clamp_size_code
clamp_bounds k h l = omega arith

accept_src :
    (k : ℕ) (val : List ℕ) (c : Conn)
    → IsSelector val
    → accept_param param_src_tsap (length val) val (k, c) ≡ ok (k, record c { dst_tsap = some val })
unfolding accept_param
accept_src k val c h = ground (arith, copy_given val)

accept_dst :
    (k : ℕ) (val : List ℕ) (c : Conn)
    → IsSelector val
    → accept_param param_dst_tsap (length val) val (k, c) ≡ ok (k, record c { src_tsap = some val })
unfolding accept_param
accept_dst k val c h = ground (arith, copy_given val)

accept_params-last :
    (fuel : ℕ) (dst : List ℕ) (k : ℕ) (c : Conn)
    → IsSelector dst
    → accept_params (suc (suc fuel)) (write_param param_dst_tsap dst) (k, c)
      ≡ ok (k, record c { src_tsap = some dst })
accept_params-last fuel dst k c h =
    ap (λ p. accept_params (suc (suc fuel)) p (k, c))
      (sym (append-nil (write_param param_dst_tsap dst)))
    ∙ accept_params-param (suc fuel) param_dst_tsap dst [] (k, c) (omega arith)
    ∙ rw (accept_dst k dst c h) (accept_params_end fuel (k, record c { src_tsap = some dst }))

pub accept_params-all :
    (fuel k : ℕ) (src dst : List ℕ) (c : Conn)
    → 7 ≤ k
    → k ≤ 11
    → IsSelector src
    → IsSelector dst
    → accept_params (suc (suc (suc (suc fuel)))) (params k src dst) (10, c)
      ≡ ok (k, record c { max_tpdu = 2 ^ k; src_tsap = some dst; dst_tsap = some src })
unfolding params accept_param
accept_params-all fuel k src dst c hk hl hs hd =
    rw
      (
        accept_params-param (suc (suc (suc fuel))) param_tpdu_size (k ∷ [])
            (write_param param_src_tsap src ++ write_param param_dst_tsap dst) (10, c)
            (omega arith),
        clamp_bounds k hk hl,
      )
      (accept_params-param (suc (suc fuel)) param_src_tsap src (write_param param_dst_tsap dst)
          (k, record c { max_tpdu = 2 ^ k }) (omega arith)
        ∙ rw (accept_src k src (record c { max_tpdu = 2 ^ k }) hs)
            (accept_params-last fuel dst k (record c { max_tpdu = 2 ^ k; dst_tsap = some src }) hd))

-- The parameters of a CC that echoes the size that was proposed change nothing.
pub parse_params-all :
    (fuel k : ℕ) (one two : List ℕ)
    → IsSelector one
    → IsSelector two
    → parse_params (suc (suc (suc fuel))) (params k one two) (2 ^ k) ≡ 2 ^ k
unfolding params lower_size
parse_params-all fuel k one two ho ht =
    parse_params-param (suc (suc fuel)) param_tpdu_size (k ∷ [])
      (write_param param_src_tsap one ++ write_param param_dst_tsap two) (2 ^ k) (omega arith)
    ∙ ap
        (λ (m : ℕ).
          parse_params (suc (suc fuel))
            (write_param param_src_tsap one ++ write_param param_dst_tsap two) m)
        same
    ∙ parse_params-param (suc fuel) param_src_tsap one (write_param param_dst_tsap two) (2 ^ k)
        (omega arith)
    ∙ rw (append-nil (write_param param_dst_tsap two)) at (
        parse_params-param fuel param_dst_tsap two [] (2 ^ k) (omega arith)
        ∙ parse_params_end fuel (2 ^ k))
  where
    same : lower_size param_tpdu_size 1 (k ∷ []) (2 ^ k) ≡ 2 ^ k
    same = ground arith
