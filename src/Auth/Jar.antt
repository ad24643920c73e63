-- ===== src/Auth/Jar.antt =====
-- The cookies that a browser keeps of the answers of src/modules/auth/auth.controller.ts.
use gameclub_backend.Prelude.{
  ◌≡◌, refl, Option, none, some, Bool, true, false, ◌&&◌, ◌||◌, String, List, [], ◌∷◌, arith,
  if◌then◌else◌, same_text, same_text_self,
}
use gameclub_backend.Common.Errors.{Result, ok, throw}
use gameclub_backend.Auth.{Presented, IssuedTokens}
use gameclub_backend.Auth.Controller.{
  AuthConfig, Cookie, CookieValue, access, refresh, CookieWrite, sets, clears, Answer,
  access_token_cookie, refresh_token_cookie, set_cookies,
}

-- What a browser keeps: a cookie takes the place of one with its name, domain and path.
abbrev pub Jar : Type 0
Jar = List Cookie

abbrev same_domain : Option String → Option String → Bool
same_domain none none = true
same_domain (some a) (some b) = same_text a b
same_domain _ _ = false

unfoldable pub in_slot : String → Option String → String → Cookie → Bool
in_slot name domain path k =
    same_text k.name name && same_domain k.domain domain && same_text k.path path

unfoldable pub without : String → Option String → String → Jar → Jar
without name domain path [] = []
without name domain path (k ∷ jar) =
    if in_slot name domain path k
    then without name domain path jar
    else k ∷ without name domain path jar

unfoldable pub holds : String → Option String → String → Jar → Bool
holds name domain path [] = false
holds name domain path (k ∷ jar) = in_slot name domain path k || holds name domain path jar

unfoldable pub value_at : String → Option String → String → Jar → Option CookieValue
value_at name domain path [] = none
value_at name domain path (k ∷ jar) =
    if in_slot name domain path k then some k.value else value_at name domain path jar

unfoldable pub receive : List CookieWrite → Jar → Jar
unfolding without
receive [] jar = jar
receive (sets k ∷ writes) jar = receive writes (k ∷ without k.name k.domain k.path jar)
receive (clears name domain path ∷ writes) jar = receive writes (without name domain path jar)

-- The jar after an answer; one that fails writes no cookie.
abbrev pub keep : Result Answer → Jar → Jar
keep (ok answer) jar = receive answer.cookies jar
keep (throw e) jar = jar

abbrev presented_of : Option CookieValue → Option Presented
presented_of (some (refresh p)) = some p
presented_of _ = none

abbrev access_of : Option CookieValue → Option String
access_of (some (access t)) = some t
access_of _ = none

-- What a request to the service brings from a jar.
unfoldable pub brought : AuthConfig → Jar → Option Presented
brought cfg jar = presented_of (value_at refresh_token_cookie cfg.cookie_domain "/api" jar)

unfoldable pub brought_access : AuthConfig → Jar → Option String
brought_access cfg jar = access_of (value_at access_token_cookie cfg.cookie_domain "/" jar)

pub holds-without_self :
    (n : String) (d : Option String) (p : String) (jar : Jar)
    → holds n d p (without n d p jar) ≡ false
unfolding holds without
holds-without_self n d p [] = refl
holds-without_self n d p (k ∷ jar) = ground (arith, holds-without_self n d p jar)

pub holds-without :
    (n m : String) (d e : Option String) (p q : String) (jar : Jar)
    → holds n d p jar ≡ false
    → holds n d p (without m e q jar) ≡ false
unfolding holds without
holds-without n m d e p q [] h = refl
holds-without n m d e p q (k ∷ jar) h = ground (arith, holds-without n m d e p q jar)

same_domain_self : (d : Option String) → same_domain d d ≡ true
same_domain_self none = refl
same_domain_self (some a) = same_text_self a

-- Whatever it kept before, a browser that receives the cookies of tokens brings these tokens.
pub brought-set_cookies :
    (cfg : AuthConfig) (tokens : IssuedTokens) (jar : Jar)
    → (brought cfg (receive (set_cookies cfg tokens) jar) ≡ some tokens.refresh_token)
      × (brought_access cfg (receive (set_cookies cfg tokens) jar) ≡ some tokens.access_token)
unfolding brought brought_access value_at receive without in_slot set_cookies
brought-set_cookies cfg tokens jar =
    (rw (same_domain_self cfg.cookie_domain) refl, rw (same_domain_self cfg.cookie_domain) refl)
