-- ===== src/Kontrol/Register/Stored.antt =====
-- What a registration that succeeds has stored, and what it tells the kite.
use kite.Common.{
  if◌then◌else◌, ◌==◌, nat_eq, Text, text_eq, Result, ok, err, ◌≡◌, refl, Bool, true, false, [],
  codes, is_empty, sym, not,
}
use mathlib.Core.Path.{subst}
use kite.Protocol.{Auth, Kite, RegisterResult}
use kite.Kontrol.KeyPair.{KeyPair}
use kite.Kontrol.QueryKey.{KeyError, validate_kite_key}
use kite.Kontrol.Register.{
  extracted, handle_register, handle_register_http, get_or_update_key_pub, RegisterError,
  unexpected_type, empty_url, invalid_url, with_interval, authenticated, Setup, Chosen, Registry,
  result_of, upserted, validated, with_chosen,
}

module _ (setup : Setup) where
  open setup use {W, extract, order, upsert}

  -- A registration that succeeds: the kite is one that `validateKiteKey` accepts, and `Upsert` took
  -- it with the URL and the id of the chosen key pair.
  pub record IsStored (kite : Kite) (url : Text) (c : Chosen) (w w' : W) : Type 0 where
    pub valid : validate_kite_key order kite ≡ ok tt
    pub took : upsert kite (record { url = url; key_id = c.pair.id }) w ≡ (w', true)

  -- The public key that a kite is told, if any: that of the pair, unless it has been seen.
  abbrev pub told : Text → KeyPair → Text
  told seen kp = if seen == kp.public then [] else kp.public

  abbrev pub Stored :
      (Chosen → Text)
      → Text
      → Kite
      → Registry setup × Result RegisterError Chosen
      → Registry setup × Result RegisterError RegisterResult
      → Type 0
  Stored seen url kite chosen (s, err e) = true ≡ true
  Stored seen url kite (s, err e) (s', ok res) = true ≡ false
  Stored seen url kite (s, ok c) (s', ok res) =
      IsStored kite url c s.world s'.world
      × (res.url ≡ url)
      × (res.kite_key ≡ c.kite_key)
      × (res.public_key ≡ told (seen c) c.pair)

  Stored-upserted :
      (seen : Chosen → Text) (url : Text) (kite : Kite) (c : Chosen) (s : Registry setup)
      (x : W × Bool)
      → validate_kite_key order kite ≡ ok tt
      → upsert kite (record { url = url; key_id = c.pair.id }) s.world ≡ x
      → Stored seen url kite (s, ok c) (upserted setup (result_of setup url (seen c) c) s x)
  Stored-upserted seen url kite c s (w, true) valid took =
      (record { valid = valid; took = took }, refl, refl, refl)
  Stored-upserted seen url kite c s (w, false) valid took = refl

  Stored-validated :
      (seen : Chosen → Text) (url : Text) (kite : Kite) (c : Chosen) (s : Registry setup)
      (r : Result KeyError Unit)
      → validate_kite_key order kite ≡ r
      → Stored seen url kite (s, ok c) (validated setup (result_of setup url (seen c) c) kite c s r)
  Stored-validated seen url kite c s (err e) valid = refl
  Stored-validated seen url kite c s (ok _) valid = Stored-upserted seen url kite c s _ valid refl

  Stored-with_chosen :
      (seen : Chosen → Text) (url : Text) (kite : Kite)
      (x : Registry setup × Result RegisterError Chosen)
      → Stored seen url kite x (with_chosen setup seen url kite x)
  Stored-with_chosen seen url kite (s, err e) = refl
  Stored-with_chosen seen url kite (s, ok c) = Stored-validated seen url kite c s _ refl

  Stored-if :
      (seen : Chosen → Text) (url : Text) (kite : Kite)
      (chosen : Registry setup × Result RegisterError Chosen) (b : Bool) (s : Registry setup)
      (e : RegisterError) (x : Registry setup × Result RegisterError RegisterResult)
      → Stored seen url kite chosen x
      → Stored seen url kite chosen (if b then (s, err e) else x)
  Stored-if seen url kite chosen true s e x h = refl
  Stored-if seen url kite chosen false s e x h = h

  Stored-extracted :
      (seen : Text → Chosen → Text) (token url : Text) (kite : Kite) (s : Registry setup)
      (claims_key : Text)
      → extract token ≡ ok claims_key
      → Stored
          (seen claims_key)
          url
          kite
          (get_or_update_key_pub setup token claims_key s)
          (extracted setup seen token url kite s (extract token))
  Stored-extracted seen token url kite s claims_key e =
      subst
        (λ r.
          Stored (seen claims_key) url kite (get_or_update_key_pub setup token claims_key s)
            (extracted setup seen token url kite s r))
        (sym e)
        (Stored-with_chosen (seen claims_key) url kite
          (get_or_update_key_pub setup token claims_key s))

  -- A registration by `HandleRegister` that succeeds has found a key pair for the kite key, the kite
  -- is one that `validateKiteKey` accepts, and `Upsert` took it with the URL and the id of that pair.
  -- The kite is told the URL, the new kite key if there is one, and the public key of the pair if it
  -- is not the key that the kite key holds.
  pub handle_register-Stored :
      (auth : Auth) (url : Text) (kite : Kite) (s : Registry setup) (claims_key : Text)
      → extract auth.key ≡ ok claims_key
      → Stored
          (λ c. claims_key)
          url
          kite
          (get_or_update_key_pub setup auth.key claims_key s)
          (handle_register setup auth (ok url) kite s)
  unfolding handle_register
  handle_register-Stored auth url kite s claims_key e =
      let seen : Chosen → Text = λ c. claims_key in
      let chosen = get_or_update_key_pub setup auth.key claims_key s in
      let parsed = extracted setup (λ k c. k) auth.key url kite s (extract auth.key) in
      let set = if not (setup.parse_url url) then (s, err invalid_url) else parsed in
      let by_key = if is_empty url then (s, err empty_url) else set in
      Stored-if seen url kite chosen (not (auth.type == codes "kiteKey")) s
        (unexpected_type auth.type) by_key
        (Stored-if seen url kite chosen (is_empty url) s empty_url set (
          Stored-if seen url kite chosen (not (setup.parse_url url)) s invalid_url parsed
            (Stored-extracted (λ k c. k) auth.key url kite s claims_key e)))

  Stored-with_interval :
      (seen : Chosen → Text) (url : Text) (kite : Kite)
      (chosen : Registry setup × Result RegisterError Chosen)
      (x : Registry setup × Result RegisterError RegisterResult)
      → Stored seen url kite chosen x
      → Stored seen url kite chosen (with_interval setup x)
  Stored-with_interval seen url kite chosen (s, err e) h = refl
  Stored-with_interval seen url kite (s, err e) (s', ok res) h = h
  Stored-with_interval seen url kite (s, ok c) (s', ok res) h = h

  -- A registration by `HandleRegisterHTTP` that succeeds stores the kite in the same way, under the
  -- username that its kite key was authenticated for. But the public key is told only if it is not
  -- the key that the claims hold after the key pair was chosen, which a change of keys has set to it.
  pub handle_register_http-Stored :
      (auth : Auth) (url : Text) (kite : Kite) (s : Registry setup) (username claims_key : Text)
      → setup.authenticate_key auth.key ≡ ok username
      → extract auth.key ≡ ok claims_key
      → Stored
          (λ c. c.claims_key)
          url
          (record kite { username = username })
          (get_or_update_key_pub setup auth.key claims_key s)
          (handle_register_http setup auth url kite s)
  unfolding handle_register_http
  handle_register_http-Stored auth url kite s username claims_key known e =
      let seen : Chosen → Text = λ c. c.claims_key in
      let chosen = get_or_update_key_pub setup auth.key claims_key s in
      let named : Kite = record kite { username = username } in
      let found = extracted setup (λ k c. c.claims_key) auth.key url named s (extract auth.key) in
      let entered = authenticated setup auth.key url kite s (setup.authenticate_key auth.key) in
      let by_key = if is_empty url then (s, err empty_url) else entered in
      Stored-if seen url named chosen (not (auth.type == codes "kiteKey")) s
        (unexpected_type auth.type) by_key
        (Stored-if seen url named chosen (is_empty url) s empty_url entered (
          subst (λ r. Stored seen url named chosen (authenticated setup auth.key url kite s r))
            (sym known)
            (Stored-with_interval seen url named chosen found
              (Stored-extracted (λ k c. c.claims_key) auth.key url named s claims_key e))))
