-- ===== src/Delegation/Headers/Canonical.antt =====
-- remote_agent_connector/protocol.py, `canonical_delegation`: the lemmas on the text that is signed.
use Prim.Native.Char.{code}
use Prim.Native.String.{◌++◌}
use text.Mathlib.TextLemmas.{nil-append, cons-append, append_cancel_left}
use remote_agent_connector.Prelude.{
  String, Bool, true, ◌&&◌, not, eqb, ◌≡◌, ◌≢◌, ◌==◌, refl, ap, sym, ◌∙◌, arith, eq_iff, Bool-cases,
  inl, inr,
}
use remote_agent_connector.Delegation.Headers.{signed_text, v3_text, v4_text}

-- No line feed in the text.
unfoldable pub one_line : String → Bool
one_line String.[] = true
one_line (String.◌∷◌ c s) = not (eqb (code c) b'\n') && one_line s

-- The line feed that ends a line.
feed : (y : String) → "\n" ++ y ≡ String.◌∷◌ "\n" y
feed y = cons-append "\n" "" y ∙ ap (String.◌∷◌ "\n") (nil-append y)

-- The first line of a text is determined by it.
first_line :
    (x x' y y' : String)
    → one_line x ≡ true
    → one_line x' ≡ true
    → x ++ ("\n" ++ y) ≡ x' ++ ("\n" ++ y')
    → (x ≡ x') × (y ≡ y')
unfolding one_line
first_line String.[] String.[] y y' h h' e =
    (refl, append_cancel_left "\n" y y' (append_cancel_left "" _ _ e))
first_line String.[] (String.◌∷◌ c s) y y' h h' e =
    let same : String.◌∷◌ "\n" y ≡ String.◌∷◌ c (s ++ ("\n" ++ y')) =
      cc (nil-append ("\n" ++ y), feed y, cons-append c s ("\n" ++ y')) in
    let c_is : code "\n" ≡ code c = cc same in absurd (ground (arith, h', c_is))
first_line (String.◌∷◌ c s) String.[] y y' h h' e =
    let same : String.◌∷◌ "\n" y' ≡ String.◌∷◌ c (s ++ ("\n" ++ y)) =
      cc (nil-append ("\n" ++ y'), feed y', cons-append c s ("\n" ++ y)) in
    let c_is : code "\n" ≡ code c = cc same in absurd (ground (arith, h, c_is))
first_line (String.◌∷◌ c s) (String.◌∷◌ c' s') y y' h h' e =
    let same : String.◌∷◌ c (s ++ ("\n" ++ y)) ≡ String.◌∷◌ c' (s' ++ ("\n" ++ y')) =
      cc (cons-append c s ("\n" ++ y), cons-append c' s' ("\n" ++ y')) in
    let (p, q) = first_line s s' y y' (ground arith) (ground arith) (cc same) in (cc (same, p), q)

v3_text_injective :
    (audience client client' time time' nonce nonce' scopes scopes' : String)
    → one_line client ≡ true
    → one_line client' ≡ true
    → one_line time ≡ true
    → one_line time' ≡ true
    → one_line nonce ≡ true
    → one_line nonce' ≡ true
    → v3_text audience client time nonce scopes ≡ v3_text audience client' time' nonce' scopes'
    → (client ≡ client') × (time ≡ time') × (nonce ≡ nonce') × (scopes ≡ scopes')
unfolding v3_text
v3_text_injective audience client client' time time' nonce nonce' scopes scopes' c c' t t' n n' e =
    let rest =
      append_cancel_left "\n" _ _
        (append_cancel_left audience _ _ (append_cancel_left "v3\n" _ _ e)) in
    let (client_eq, e1) = first_line client client' _ _ c c' rest in
    let (time_eq, e2) = first_line time time' _ _ t t' e1 in
    let (nonce_eq, e3) = first_line nonce nonce' _ _ n n' e2 in (client_eq, time_eq, nonce_eq, e3)

v4_text_injective :
    (audience client client' app app' time time' nonce nonce' scopes scopes' : String)
    → one_line client ≡ true
    → one_line client' ≡ true
    → one_line app ≡ true
    → one_line app' ≡ true
    → one_line time ≡ true
    → one_line time' ≡ true
    → one_line nonce ≡ true
    → one_line nonce' ≡ true
    → v4_text audience client app time nonce scopes
      ≡ v4_text audience client' app' time' nonce' scopes'
    → (client ≡ client') × (app ≡ app') × (time ≡ time') × (nonce ≡ nonce') × (scopes ≡ scopes')
unfolding v4_text
v4_text_injective audience client client' app app' time time' nonce nonce' scopes scopes' c c' a a'
      t t' n n' e =
    let rest =
      append_cancel_left "\n" _ _
        (append_cancel_left audience _ _ (append_cancel_left "v4\n" _ _ e)) in
    let (client_eq, e1) = first_line client client' _ _ c c' rest in
    let (app_eq, e2) = first_line app app' _ _ a a' e1 in
    let (time_eq, e3) = first_line time time' _ _ t t' e2 in
    let (nonce_eq, e4) = first_line nonce nonce' _ _ n n' e3 in
    (client_eq, app_eq, time_eq, nonce_eq, e4)

-- The version tells the two forms apart.
versions_differ : (x y : String) → "v3\n" ++ x ≢ "v4\n" ++ y
versions_differ x y e =
    let same : code "3" ≡ code "4" = cc (
      cons-append "v" "3\n" x,
      cons-append "3" "\n" x,
      cons-append "v" "4\n" y,
      cons-append "4" "\n" y,
    ) in
    absurd (ground (arith, same))

v3_text-ne-v4_text :
    (audience client client' app time time' nonce nonce' scopes scopes' : String)
    → v3_text audience client time nonce scopes ≢ v4_text audience client' app time' nonce' scopes'
unfolding v3_text v4_text
v3_text-ne-v4_text audience client client' app time time' nonce nonce' scopes scopes' e =
    versions_differ _ _ e

-- Two signed texts for one audience agree only if every field of them agrees, the application's
-- included, where no field but the last holds a line feed.
pub signed_text_injective :
    (audience client client' app app' time time' nonce nonce' scopes scopes' : String)
    → one_line client ≡ true
    → one_line client' ≡ true
    → one_line app ≡ true
    → one_line app' ≡ true
    → one_line time ≡ true
    → one_line time' ≡ true
    → one_line nonce ≡ true
    → one_line nonce' ≡ true
    → signed_text audience client app time nonce scopes
      ≡ signed_text audience client' app' time' nonce' scopes'
    → (client ≡ client') × (app ≡ app') × (time ≡ time') × (nonce ≡ nonce') × (scopes ≡ scopes')
unfolding signed_text
signed_text_injective audience client client' app app' time time' nonce nonce' scopes scopes' c c' a
      a' t t' n n' e =
    elim (Bool-cases (app == "")) [
      | inl bare ↦ elim (Bool-cases (app' == "")) [
        | inl bare' ↦
            let (x, y, z, w) =
              v3_text_injective audience client client' time time' nonce nonce' scopes scopes' c c'
                t t' n n' (ground (arith, e, bare, bare')) in
            (x, (eq_iff app "").0 bare ∙ sym ((eq_iff app' "").0 bare'), y, z, w)
        | inr named' ↦ absurd (
            v3_text-ne-v4_text audience client client' app' time time' nonce nonce' scopes scopes'
              (ground (arith, e, bare, named')))
      ]
      | inr named ↦ elim (Bool-cases (app' == "")) [
        | inl bare' ↦ absurd (
            v3_text-ne-v4_text audience client' client app time' time nonce' nonce scopes' scopes
              (ground (arith, e, named, bare')))
        | inr named' ↦
            v4_text_injective audience client client' app app' time time' nonce nonce' scopes
              scopes' c c' a a' t t' n n' (ground (arith, e, named, named'))
      ]
    ]
