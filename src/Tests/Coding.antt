-- ===== src/Tests/Coding.antt =====
-- A coding of rows as texts, for a Json that keeps every field.
use Prim.Native.Char.{Char, code}
use kratos_layout_monolith.Prelude.{
  ℕ, zero, suc, String, Bool, true, false, Option, none, some, ◌≡◌, ◌≢◌, refl, ap, ◌∙◌, ◌==◌,
  if◌then◌else◌, arith, get_or,
}
use kratos_layout_monolith.Prelude.Int.{ℤ, pos, negsuc}
use kratos_layout_monolith.Prelude.Text.{codes}
use kratos_layout_monolith.Errors.{opaque, ok, err, Done}
use kratos_layout_monolith.External.Redis.{Json}
use kratos_layout_monolith.Cache.Commands.{placeholder}
use kratos_layout_monolith.Cache.Take.Spec.{JsonLaws}
use kratos_layout_monolith.User.Model.{Row}

-- A value of type A at the front of a text.
pub record Codec (A : Type 0) : Type 0 where
  pub put : A → String → String
  pub read : String → Option (A × String)
  pub law : (a : A) (s : String) → read (put a s) ≡ some (a, s)

abbrev put_text : String → String → String
put_text String.[] s = String.◌∷◌ "." s
put_text (String.◌∷◌ c t) s = String.◌∷◌ "," (String.◌∷◌ c (put_text t s))

abbrev grow : Char → Option (String × String) → Option (String × String)
grow c none = none
grow c (some (t, s)) = some (String.◌∷◌ c t, s)

abbrev read_text : String → Option (String × String)
read_text String.[] = none
read_text (String.◌∷◌ mark String.[]) = if code mark == b'.' then some ("", "") else none
read_text (String.◌∷◌ mark (String.◌∷◌ c s)) =
    let rest = read_text s in if code mark == b'.' then some ("", String.◌∷◌ c s) else grow c rest

pub text_law : (t s : String) → read_text (put_text t s) ≡ some (t, s)
text_law String.[] String.[] = refl
text_law String.[] (String.◌∷◌ c s) = refl
text_law (String.◌∷◌ c t) s = ap (grow c) (text_law t s)

abbrev put_nat : ℕ → String → String
put_nat zero s = String.◌∷◌ "." s
put_nat (suc n) s = String.◌∷◌ "," (put_nat n s)

abbrev more : Option (ℕ × String) → Option (ℕ × String)
more none = none
more (some (n, s)) = some (suc n, s)

abbrev read_nat : String → Option (ℕ × String)
read_nat String.[] = none
read_nat (String.◌∷◌ mark s) =
    let rest = read_nat s in if code mark == b'.' then some (0, s) else more rest

pub nat_law : (n : ℕ) (s : String) → read_nat (put_nat n s) ≡ some (n, s)
nat_law zero s = refl
nat_law (suc n) s = ap more (nat_law n s)

abbrev put_int : ℤ → String → String
put_int (pos n) s = String.◌∷◌ "+" (put_nat n s)
put_int (negsuc n) s = String.◌∷◌ "-" (put_nat n s)

abbrev sign : Bool → Option (ℕ × String) → Option (ℤ × String)
sign minus none = none
sign true (some (n, s)) = some (negsuc n, s)
sign false (some (n, s)) = some (pos n, s)

abbrev read_int : String → Option (ℤ × String)
read_int String.[] = none
read_int (String.◌∷◌ mark s) = sign (code mark == b'-') (read_nat s)

pub int_law : (n : ℤ) (s : String) → read_int (put_int n s) ≡ some (n, s)
int_law (pos n) s = ap (sign false) (nat_law n s)
int_law (negsuc n) s = ap (sign true) (nat_law n s)

abbrev text_codec : Codec String
text_codec = record { put = put_text; read = read_text; law = text_law }

abbrev nat_codec : Codec ℕ
nat_codec = record { put = put_nat; read = read_nat; law = nat_law }

abbrev int_codec : Codec ℤ
int_codec = record { put = put_int; read = read_int; law = int_law }

module _ {A B : Type 0} where
  abbrev second_of : A → Option (B × String) → Option ((A × B) × String)
  second_of a none = none
  second_of a (some (b, s)) = some ((a, b), s)

  abbrev both_of : Codec B → Option (A × String) → Option ((A × B) × String)
  both_of cb none = none
  both_of cb (some (a, s)) = second_of a (cb.read s)

  pub pair_law :
      (ca : Codec A) (cb : Codec B) (p : A × B) (s : String)
      → both_of cb (ca.read (ca.put p.0 (cb.put p.1 s))) ≡ some (p, s)
  pair_law ca cb p s =
      ap (both_of cb) (ca.law p.0 (cb.put p.1 s)) ∙ ap (second_of p.0) (cb.law p.1 s)

  abbrev pair_codec : Codec A → Codec B → Codec (A × B)
  pair_codec ca cb = record {
    put = λ p s. ca.put p.0 (cb.put p.1 s);
    read = λ s. both_of cb (ca.read s);
    law = pair_law ca cb;
  }

-- The fields of a row, with times as numbers.
abbrev Fields : Type 0
Fields =
    ((ℤ × ℤ) × (ℤ × ℤ))
    × (((ℕ × ℕ) × ℕ) × (((String × String) × (String × String)) × (String × String)))

abbrev nat_of : Option ℕ → ℕ
nat_of none = 0
nat_of (some n) = suc n

abbrev option_of : ℕ → Option ℕ
option_of zero = none
option_of (suc n) = some n

abbrev fields_of : Row ℕ → Fields
fields_of u = (
  ((u.id, u.del_state), (u.version, u.status)),
  (
    ((u.created_at, u.updated_at), nat_of u.deleted_at),
    (((u.username, u.password), (u.email, u.phone)), (u.nickname, u.avatar)),
  ),
)

abbrev row_of : Fields → Row ℕ
row_of
      (
        ((id, del_state), (version, status)),
        (
          ((created, updated), deleted),
          (((username, password), (email, phone)), (nickname, avatar)),
        ),
      ) =
    record {
      base_model = record {
        id = id;
        del_state = del_state;
        deleted_at = option_of deleted;
        version = version;
        created_at = created;
        updated_at = updated;
      };
      username = username;
      password = password;
      email = email;
      phone = phone;
      nickname = nickname;
      avatar = avatar;
      status = status;
    }

option_law : (o : Option ℕ) → option_of (nat_of o) ≡ o
option_law none = refl
option_law (some n) = refl

pub row_law : (u : Row ℕ) → row_of (fields_of u) ≡ u
row_law u =
    ap (λ o. record u { base_model = record (u.base_model) { deleted_at = o } })
      (option_law u.deleted_at)

abbrev texts : Codec (String × String)
texts = pair_codec text_codec text_codec

abbrev ints : Codec (ℤ × ℤ)
ints = pair_codec int_codec int_codec

abbrev fields_codec : Codec Fields
fields_codec = pair_codec (pair_codec ints ints) (
    pair_codec (pair_codec (pair_codec nat_codec nat_codec) nat_codec)
      (pair_codec (pair_codec texts texts) texts))

abbrev pub encode_row : Row ℕ → String
encode_row u = String.◌∷◌ "{" (fields_codec.put (fields_of u) "")

abbrev decoded : Option (Fields × String) → Row ℕ → Done × Row ℕ
decoded none w = (err (opaque "unexpected end of JSON input"), w)
decoded (some (f, _)) w = (ok tt, row_of f)

abbrev decode_row : String → Row ℕ → Done × Row ℕ
decode_row String.[] w = decoded none w
decode_row (String.◌∷◌ c s) w = decoded (fields_codec.read s) w

pub decode_encode : (v w : Row ℕ) → decode_row (encode_row v) w ≡ (ok tt, v)
decode_encode v w =
    ap (λ o. decoded o w) (fields_codec.law (fields_of v) "")
    ∙ ap (λ (u : Row ℕ). (ok tt, u)) (row_law v)

pub encode_ne : (v : Row ℕ) (t : String) → b'{' ≢ get_or (codes t) 0 0 → encode_row v ≢ t
encode_ne v t ne e = ne (ap (λ s. get_or (codes s) 0 0) e)

pub encode-ne-placeholder : (v : Row ℕ) → encode_row v ≢ placeholder
encode-ne-placeholder v = encode_ne v placeholder (λ e. omega (arith, e))

pub encode-ne-empty : (v : Row ℕ) → encode_row v ≢ ""
encode-ne-empty v = encode_ne v "" (λ e. omega (arith, e))

abbrev pub row_json : Json (Row ℕ)
row_json = record { marshal = λ v. ok (encode_row v); unmarshal = decode_row }

abbrev pub row_laws : JsonLaws row_json
row_laws = record {
  encode = encode_row;
  marshals = λ v. refl;
  round_trip = decode_encode;
  ne_placeholder = encode-ne-placeholder;
  ne_empty = encode-ne-empty;
}
