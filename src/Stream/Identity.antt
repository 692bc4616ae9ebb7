-- ===== src/Stream/Identity.antt =====
-- `validateIdentity` and `authorize` of ops/lib/cpa-stream.ts.
use memeloop_token_center_mi.Common.{
  ℕ, zero, suc, ◌+◌, ◌*◌, Bool, false, not, ◌&&◌, ◌||◌, Option, none, some, List, [], ◌∷◌, ◌++◌,
  Text, units, text_eq, leb, ltb, ◌==◌, throw_if, ◌>>◌,
}
use memeloop_token_center_mi.Json.Number.{is_digit}
use memeloop_token_center_mi.Routes.Strings.{sort_by}
use memeloop_token_center_mi.Stream.Wire.{thrown, Copied}

-- What `node:crypto` and `Date.parse` say of a certificate that it can read: the two times, if they are dates, in
-- milliseconds, whether it is an authority's, whether the authority of the identity signed it, whether
-- it is of the expected name, and whether the private key is its.
pub record Certificate : Type 0 where
  pub started : Option ℕ
  pub ended : Option ℕ
  pub is_authority : Bool
  pub is_signed : Bool
  pub has_name : Bool
  pub has_key : Bool

-- An identity: the names of its fields, the fingerprint of the peer if it is a text, the certificate, and
-- whether the authority's certificate is an authority's.
pub record Identity : Type 0 where
  pub fields : List Text
  pub peer_fingerprint : Option Text
  pub certificate : Certificate
  pub authority_is_authority : Bool

abbrev is_upper_hex : ℕ → Bool
is_upper_hex c = is_digit c || (leb b'A' c && leb c b'F')

-- /^(?:[A-F0-9]{2}:){31}[A-F0-9]{2}$/, for so many pairs before the last
unfoldable pub is_fingerprint : ℕ → Text → Bool
is_fingerprint zero (a ∷ b ∷ []) = is_upper_hex a && is_upper_hex b
is_fingerprint zero _ = false
is_fingerprint (suc n) (a ∷ b ∷ c ∷ s) =
    is_upper_hex a && is_upper_hex b && c == b':' && is_fingerprint n s
is_fingerprint (suc n) _ = false

abbrev is_pin : Option Text → Bool
is_pin none = false
is_pin (some s) = is_fingerprint 31 s

abbrev pub lifetime_ms : ℕ
lifetime_ms = 45 * 60_000

-- `started <= now && ended > now && ended - started <= 45 * 60000`; no date is none of it
abbrev pub is_current : ℕ → Option ℕ → Option ℕ → Bool
is_current now (some started) (some ended) =
    leb started now && ltb now ended && leb ended (started + lifetime_ms)
is_current now _ _ = false

-- `join(",")`
abbrev pub comma_joined : List Text → Text
comma_joined [] = []
comma_joined (s ∷ []) = s
comma_joined (s ∷ ss) = s ++ b',' ∷ comma_joined ss

unfoldable pub validate_identity : ℕ → Identity → Copied (Unit {0})
validate_identity now identity = do
  throw_if
      (not (
        text_eq (comma_joined (sort_by (λ t. t) identity.fields))
          (units "ca,cert,key,peerFingerprint")))
      (thrown "IDENTITY_FIELDS")
  throw_if (not (is_pin identity.peer_fingerprint)) (thrown "IDENTITY_PIN")
  throw_if
      (not (
        identity.authority_is_authority
        && not identity.certificate.is_authority
        && identity.certificate.is_signed))
      (thrown "IDENTITY_CA")
  throw_if (not (is_current now identity.certificate.started identity.certificate.ended))
      (thrown "IDENTITY_LIFETIME")
  throw_if (not identity.certificate.has_name) (thrown "IDENTITY_ROLE")
  throw_if (not identity.certificate.has_key) (thrown "IDENTITY_KEY")

-- What the socket says of its peer: whether it is authorised, the fingerprint, whether the certificate
-- is of the expected name, and its times.
pub record Peer : Type 0 where
  pub authorized : Bool
  pub fingerprint : Text
  pub has_name : Bool
  pub started : Option ℕ
  pub ended : Option ℕ

abbrev is_pinned : Option Text → Text → Bool
is_pinned none fingerprint = false
is_pinned (some pin) fingerprint = text_eq fingerprint pin

unfoldable pub authorize : ℕ → Peer → Identity → Copied (Unit {0})
authorize now peer identity = do
  throw_if (not peer.authorized) (thrown "PEER_UNAUTHORIZED")
  throw_if (not (is_pinned identity.peer_fingerprint peer.fingerprint)) (thrown "PEER_PIN")
  throw_if (not peer.has_name) (thrown "PEER_ROLE")
  throw_if (not (is_current now peer.started peer.ended)) (thrown "PEER_LIFETIME")
