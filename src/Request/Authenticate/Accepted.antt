-- ===== src/Request/Authenticate/Accepted.antt =====
-- When `authenticate` lets a request through.
use kite.Common.{
  nat_eq, Text, text_eq, ◌≡◌, refl, sym, ap, ◌∙◌, ◌↔◌, ◌⊎◌, inl, inr, Option, none, some,
}
use kite.Protocol.{Auth}
use kite.Request.Authenticate.{
  after_check, by_authenticator, by_auth, Session, websocket_session, xhr_session, other_session,
  Client, Request, set_username, Checked, checked, refused, check_panicked, accepted, Authenticator,
  authenticate, by_authenticator, by_auth, after_check,
}

module _ (A W : Type 0) (authenticators : Text → Option (Authenticator A W)) where
  abbrev IsOurs : Session → Type 0
  IsOurs s = (s ≡ websocket_session) ⊎ (s ≡ xhr_session)

  -- The authenticator of the request's type took it and left `r'`.
  pub record IsChecked (r : Request A) (w : W) (r' : Request A) : Type 0 where
    pub auth : Auth
    pub given : r.auth ≡ some auth
    pub authenticator : Authenticator A W
    pub known : authenticators auth.type ≡ some authenticator
    pub took : (authenticator r w).1 ≡ checked r'

  -- How a request is let through: it came over a connection that this side has opened, and nothing
  -- is changed; or the authenticator of its type took it, and the client goes by the name that the
  -- authenticator found.
  abbrev pub LetThrough : Request A → Client → W → Request A → Client → Type 0
  LetThrough r c w r' c' =
      (IsOurs c.session × (r' ≡ r) × (c' ≡ c))
      ⊎ ((c.session ≡ other_session) × IsChecked r w r' × (c' ≡ set_username r'.username c))

  Session-cases :
      (s : Session) → (s ≡ websocket_session) ⊎ ((s ≡ xhr_session) ⊎ (s ≡ other_session))
  Session-cases websocket_session = inl refl
  Session-cases xhr_session = inr (inl refl)
  Session-cases other_session = inr (inr refl)

  authenticate_ours :
      (r : Request A) (c : Client) (w : W)
      → IsOurs c.session
      → authenticate A W authenticators r c w ≡ (w, accepted r c)
  unfolding authenticate
  authenticate_ours r c w (inl e) = rw e refl
  authenticate_ours r c w (inr e) = rw e refl

  authenticate_other :
      (r : Request A) (c : Client) (w : W)
      → c.session ≡ other_session
      → authenticate A W authenticators r c w ≡ by_auth A W authenticators r c w r.auth
  unfolding authenticate
  authenticate_other r c w e = rw e refl

  after_check_accepted :
      (type : Text) (c : Client) (x : W × Checked A) (r' : Request A) (c' : Client)
      → (after_check A W type c x).1 ≡ accepted r' c'
      → (x.1 ≡ checked r') × (c' ≡ set_username r'.username c)
  after_check_accepted type c (w, checked r) r' c' h = (cc, cc)
  after_check_accepted type c (w, refused e) r' c' h = cc
  after_check_accepted type c (w, check_panicked e) r' c' h = cc

  by_authenticator_accepted :
      (auth : Auth) (o : Option (Authenticator A W)) (r : Request A) (c : Client) (w : W)
      (r' : Request A) (c' : Client)
      → authenticators auth.type ≡ o
      → r.auth ≡ some auth
      → (by_authenticator A W o r c w auth).1 ≡ accepted r' c'
      → IsChecked r w r' × (c' ≡ set_username r'.username c)
  by_authenticator_accepted auth none r c w r' c' e given h = cc
  by_authenticator_accepted auth (some f) r c w r' c' e given h =
      let (took, named) = after_check_accepted auth.type c (f r w) r' c' h in
      (record { auth = auth; given = given; authenticator = f; known = e; took = took }, named)

  by_auth_accepted :
      (o : Option Auth) (r : Request A) (c : Client) (w : W) (r' : Request A) (c' : Client)
      → r.auth ≡ o
      → (by_auth A W authenticators r c w o).1 ≡ accepted r' c'
      → IsChecked r w r' × (c' ≡ set_username r'.username c)
  by_auth_accepted none r c w r' c' given h = cc
  by_auth_accepted (some auth) r c w r' c' given h =
      by_authenticator_accepted auth (authenticators auth.type) r c w r' c' refl given h

  LetThrough-ours :
      (r : Request A) (c : Client) (w : W) (r' : Request A) (c' : Client)
      → IsOurs c.session
      → (authenticate A W authenticators r c w).1 ≡ accepted r' c'
      → LetThrough r c w r' c'
  LetThrough-ours r c w r' c' ours h =
      let same : accepted r c ≡ accepted r' c' =
        sym (ap (λ x. x.1) (authenticate_ours r c w ours)) ∙ h in
      inl (ours, cc, cc)

  LetThrough-authenticate :
      (r : Request A) (c : Client) (w : W) (r' : Request A) (c' : Client)
      → (authenticate A W authenticators r c w).1 ≡ accepted r' c'
      → LetThrough r c w r' c'
  LetThrough-authenticate r c w r' c' h = elim (Session-cases c.session) [
    | inl e ↦ LetThrough-ours r c w r' c' (inl e) h
    | inr (inl e) ↦ LetThrough-ours r c w r' c' (inr e) h
    | inr (inr e) ↦
        let (took, named) =
          by_auth_accepted r.auth r c w r' c' refl
            (sym (ap (λ x. x.1) (authenticate_other r c w e)) ∙ h) in
        inr (e, took, named)
  ]

  checked_accepted :
      (type : Text) (c : Client) (x : W × Checked A) (r' : Request A)
      → x.1 ≡ checked r'
      → (after_check A W type c x).1 ≡ accepted r' (set_username r'.username c)
  checked_accepted type c (w, checked r) r' h =
      let same : r ≡ r' = cc in ap (λ q. accepted q (set_username q.username c)) same
  checked_accepted type c (w, refused e) r' h = cc
  checked_accepted type c (w, check_panicked e) r' h = cc

  authenticate_of_LetThrough :
      (r : Request A) (c : Client) (w : W) (r' : Request A) (c' : Client)
      → LetThrough r c w r' c'
      → (authenticate A W authenticators r c w).1 ≡ accepted r' c'
  authenticate_of_LetThrough r c w r' c' (inl (ours, er, ec)) =
      rw (authenticate_ours r c w ours, er, ec) refl
  authenticate_of_LetThrough r c w r' c' (inr (e, k, ec)) =
      ap (λ x. x.1) (authenticate_other r c w e)
      ∙ ap (λ o. (by_auth A W authenticators r c w o).1) k.given
      ∙ ap (λ o. (by_authenticator A W o r c w k.auth).1) k.known
      ∙ checked_accepted k.auth.type c (k.authenticator r w) r' k.took
      ∙ sym (ap (accepted r') ec)

  -- `authenticate` lets a request through in these two ways only, and in no other.
  pub authenticate-LetThrough :
      (r : Request A) (c : Client) (w : W) (r' : Request A) (c' : Client)
      → ((authenticate A W authenticators r c w).1 ≡ accepted r' c') ↔ LetThrough r c w r' c'
  authenticate-LetThrough r c w r' c' =
      (LetThrough-authenticate r c w r' c', authenticate_of_LetThrough r c w r' c')
