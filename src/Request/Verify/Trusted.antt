-- ===== src/Request/Verify/Trusted.antt =====
-- Which keys `verify` trusts, over its cache.
use kite.Common.{
  if◌then◌else◌, Bool-cases, ◌==◌, ==_iff, nat_eq, Text, text_eq, is_empty, Result, ok, err, ◌≡◌,
  refl, inl, inr, Bool, true, false, Option, none, some, arith,
}
use mathlib.Core.Path.{subst}
use kite.Request.Verify.{
  VerifyCache, Doubt, not_trusted, other_doubt, VerifyError, no_kontrol_key, Trust, cached_verdict,
  after_verify_func, by_verdict, by_rsa, verify,
}

module _ (cache : VerifyCache) (W Rsa : Type 0) (parse_rsa : Text → Result Text Rsa)
    (verify_func : Text → W → W × Result Doubt Unit) where
  abbrev pub State : Type 0
  State = Trust cache W Rsa parse_rsa verify_func

  abbrev pub verdict : Text → State → Option Bool
  verdict key s = cached_verdict cache W Rsa parse_rsa verify_func key s.verify_cache

  -- Every key that the cache takes for good has been vouched for.
  abbrev pub IsSound : (Text → Type 0) → State → Type 0
  IsSound Vouched s = (key : Text) → verdict key s ≡ some true → Vouched key

  abbrev pub OnlyVouched : (Text → Type 0) → Text → State × Result VerifyError Rsa → Type 0
  OnlyVouched Vouched key (s, ok rsa) = IsSound Vouched s × Vouched key
  OnlyVouched Vouched key (s, err e) = IsSound Vouched s

  module _ (Vouched : Text → Type 0)
      (vouches : (key : Text) (w : W) → (verify_func key w).1 ≡ ok tt → Vouched key) where
    IsSound-set :
        (key : Text) (v : Bool) (c : cache.Entries) (w w' : W)
        → (v ≡ true → Vouched key)
        → IsSound Vouched (record { verify_cache = some c; world = w })
        → IsSound Vouched (record { verify_cache = some (cache.set key v c); world = w' })
    IsSound-set key v c w w' new sound other h = elim (Bool-cases (key == other)) [
      | inl e ↦
          let same : key ≡ other = (==_iff key other).0 e in
          let at : some v ≡ some true = ground (arith, cache.get-set key other v c, h, e) in
          subst Vouched same (new cc)
      | inr e ↦ sound other (ground (arith, cache.get-set key other v c, h, e))
    ]

    OnlyVouched-after_verify_func :
        (key : Text) (rsa : Rsa) (c : Option cache.Entries) (w : W) (x : W × Result Doubt Unit)
        → (x.1 ≡ ok tt → Vouched key)
        → IsSound Vouched (record { verify_cache = c; world = w })
        → OnlyVouched Vouched key (after_verify_func cache W Rsa parse_rsa verify_func key rsa c x)
    OnlyVouched-after_verify_func key rsa none w (w', ok _) new sound = sound
    OnlyVouched-after_verify_func key rsa (some c) w (w', ok u) new sound =
        let good = new refl in (IsSound-set key true c w w' (λ e. good) sound, good)
    OnlyVouched-after_verify_func key rsa none w (w', err not_trusted) new sound = sound
    OnlyVouched-after_verify_func key rsa (some c) w (w', err not_trusted) new sound =
        IsSound-set key false c w w' (λ e. cc) sound
    OnlyVouched-after_verify_func key rsa c w (w', err (other_doubt e)) new sound = sound

    OnlyVouched-by_verdict :
        (key : Text) (rsa : Rsa) (s : State) (o : Option Bool)
        → verdict key s ≡ o
        → IsSound Vouched s
        → OnlyVouched Vouched key (by_verdict cache W Rsa parse_rsa verify_func key rsa s o)
    OnlyVouched-by_verdict key rsa s (some true) e sound = (sound, sound key e)
    OnlyVouched-by_verdict key rsa s (some false) e sound = sound
    OnlyVouched-by_verdict key rsa s none e sound =
        OnlyVouched-after_verify_func key rsa s.verify_cache s.world (verify_func key s.world)
          (vouches key s.world) sound

    OnlyVouched-by_rsa :
        (key : Text) (s : State) (o : Result Text Rsa)
        → IsSound Vouched s
        → OnlyVouched Vouched key (by_rsa cache W Rsa parse_rsa verify_func key s o)
    OnlyVouched-by_rsa key s (err e) sound = sound
    OnlyVouched-by_rsa key s (ok rsa) sound = OnlyVouched-by_verdict key rsa s _ refl sound

    -- If what the verify function accepts is vouched for, and so is what the cache takes for good,
    -- then `verify` trusts only keys that are vouched for, from the cache or not, and leaves a cache
    -- of which this holds again, with an error too.
    pub verify-OnlyVouched :
        (key : Text) (s : State)
        → IsSound Vouched s
        → OnlyVouched Vouched key (verify cache W Rsa parse_rsa verify_func key s)
    unfolding verify
    verify-OnlyVouched key s sound = by_key (is_empty key)
      where
        by_key :
            (b : Bool)
            → OnlyVouched Vouched key (
                if b
                then (s, err no_kontrol_key)
                else by_rsa cache W Rsa parse_rsa verify_func key s (parse_rsa key))
        by_key true = sound
        by_key false = OnlyVouched-by_rsa key s (parse_rsa key) sound
