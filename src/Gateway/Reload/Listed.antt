-- ===== src/Gateway/Reload/Listed.antt =====
-- Which fields a reload lists.
use bypath.Base.{
  int_eq, String, string_eq, nat_eq, Bool, true, false, not, ◌==◌, List, [], any, All, subst, ◌≡◌,
  ◌≢◌, ◌↔◌, refl, sym, ◌∙◌,
}
use bypath.Config.{Config}
use bypath.Gateway.Reload.{joins_differ, local_dns_changed, bool_differ, listed_if, reload}
use bypath.Gateway.Reload.Changes.{
  IsPlain, differs_iff, bool_differ_iff, joins_differ_iff, IsPlainEntry, local_dns_changed_iff,
}

abbrev pub Listed : String → List String → Type 0
Listed name fields = any (λ field. field == name) fields ≡ true

abbrev has : String → List String → Bool
has name = any (λ field. field == name)

has-skip :
    (name : String) (changed : Bool) (field : String) (rest : List String)
    → (field == name) ≡ false
    → has name (listed_if changed field rest) ≡ has name rest
has-skip name true field rest other = rw other refl
has-skip name false field rest other = refl

has-here :
    (name : String) (changed : Bool) (field : String) (rest : List String)
    → (field == name) ≡ true
    → has name rest ≡ false
    → has name (listed_if changed field rest) ≡ changed
has-here name true field rest here gone = rw here refl
has-here name false field rest here gone = gone

-- The list of six tests has a name exactly if its test holds.
module _ (a b c d e f : Bool) where
  abbrev list_of_six : List String
  list_of_six = listed_if a "server.socks_port" (
      listed_if b "server.api_port" (
        listed_if c "gateway.native_tun" (
          listed_if d "gateway.dns_upstream"
            (listed_if e "gateway.local_dns" (listed_if f "engines.preferred" [])))))

  has-socks_port : has "server.socks_port" list_of_six ≡ a
  has-socks_port = has-here _ a _ _ refl (
      has-skip _ b _ _ refl
      ∙ has-skip _ c _ _ refl
      ∙ has-skip _ d _ _ refl
      ∙ has-skip _ e _ _ refl
      ∙ has-skip _ f _ _ refl)

  has-api_port : has "server.api_port" list_of_six ≡ b
  has-api_port =
      has-skip _ a _ _ refl
      ∙ has-here _ b _ _ refl (
          has-skip _ c _ _ refl
          ∙ has-skip _ d _ _ refl
          ∙ has-skip _ e _ _ refl
          ∙ has-skip _ f _ _ refl)

  has-native_tun : has "gateway.native_tun" list_of_six ≡ c
  has-native_tun =
      has-skip _ a _ _ refl
      ∙ has-skip _ b _ _ refl
      ∙ has-here _ c _ _ refl
          (has-skip _ d _ _ refl ∙ has-skip _ e _ _ refl ∙ has-skip _ f _ _ refl)

  has-dns_upstream : has "gateway.dns_upstream" list_of_six ≡ d
  has-dns_upstream =
      has-skip _ a _ _ refl
      ∙ has-skip _ b _ _ refl
      ∙ has-skip _ c _ _ refl
      ∙ has-here _ d _ _ refl (has-skip _ e _ _ refl ∙ has-skip _ f _ _ refl)

  has-local_dns : has "gateway.local_dns" list_of_six ≡ e
  has-local_dns =
      has-skip _ a _ _ refl
      ∙ has-skip _ b _ _ refl
      ∙ has-skip _ c _ _ refl
      ∙ has-skip _ d _ _ refl
      ∙ has-here _ e _ _ refl (has-skip _ f _ _ refl)

  has-preferred : has "engines.preferred" list_of_six ≡ f
  has-preferred =
      has-skip _ a _ _ refl
      ∙ has-skip _ b _ _ refl
      ∙ has-skip _ c _ _ refl
      ∙ has-skip _ d _ _ refl
      ∙ has-skip _ e _ _ refl
      ∙ has-here _ f _ _ refl refl

iff_of_eq {ℓ} : {P : Type ℓ} (x y : Bool) → x ≡ y → (y ≡ true) ↔ P → (x ≡ true) ↔ P
iff_of_eq {P} x y e h = subst (λ b. (b ≡ true) ↔ P) (sym e) h

-- A configuration whose DNS servers and domains are plain texts.
pub record IsPlainConfig (cfg : Config) : Type 0 where
  pub dns_upstream : All IsPlain cfg.gateway.dns_upstream
  pub local_dns : All IsPlainEntry cfg.gateway.local_dns

-- What a reload lists.
pub record Restarts (old new : Config) (fields : List String) : Type 0 where
  pub socks_port :
      Listed "server.socks_port" fields ↔ (new.server.socks_port ≢ old.server.socks_port)
  pub api_port : Listed "server.api_port" fields ↔ (new.server.api_port ≢ old.server.api_port)
  pub native_tun :
      Listed "gateway.native_tun" fields ↔ (new.gateway.native_tun ≢ old.gateway.native_tun)
  pub dns_upstream :
      Listed "gateway.dns_upstream" fields ↔ (new.gateway.dns_upstream ≢ old.gateway.dns_upstream)
  pub local_dns :
      Listed "gateway.local_dns" fields ↔ (old.gateway.local_dns ≢ new.gateway.local_dns)
  pub preferred :
      Listed "engines.preferred" fields
      ↔ (new.engines.preferred_engine ≢ old.engines.preferred_engine)

-- A reload takes over the new configuration, and lists exactly those of six fields that it changes, if
-- the DNS servers and the domains of both configurations are texts without commas that are not empty.
pub reload-Restarts :
    (old new : Config)
    → IsPlainConfig old
    → IsPlainConfig new
    → ((reload old new).0 ≡ new) × Restarts old new (reload old new).1
unfolding reload
reload-Restarts old new h k =
    let a = not (new.server.socks_port == old.server.socks_port) in
    let b = not (new.server.api_port == old.server.api_port) in
    let c = bool_differ new.gateway.native_tun old.gateway.native_tun in
    let d = joins_differ new.gateway.dns_upstream old.gateway.dns_upstream in
    let e = local_dns_changed old.gateway.local_dns new.gateway.local_dns in
    let f = not (new.engines.preferred_engine == old.engines.preferred_engine) in
    (
      refl,
      record {
        socks_port = iff_of_eq _ a (has-socks_port a b c d e f) (differs_iff _ _);
        api_port = iff_of_eq _ b (has-api_port a b c d e f) (differs_iff _ _);
        native_tun = iff_of_eq _ c (has-native_tun a b c d e f) (bool_differ_iff _ _);
        dns_upstream =
            iff_of_eq _ d (has-dns_upstream a b c d e f)
              (joins_differ_iff _ _ k.dns_upstream h.dns_upstream);
        local_dns =
            iff_of_eq _ e (has-local_dns a b c d e f)
              (local_dns_changed_iff _ _ h.local_dns k.local_dns);
        preferred = iff_of_eq _ f (has-preferred a b c d e f) (differs_iff _ _);
      },
    )
