-- ===== src/Tests/Codecs.antt =====
-- Concrete codecs for the test data: every value is written as a list of numbers and read back.
use ondris.Prelude.{
  ℕ, zero, suc, ◌++◌, ◌≡◌, refl, Option, none, some, List, [], ◌∷◌, Bytes, length, take, drop,
  take-length_append, drop-length_append,
}
use ondris.Block.{Json, JsonLaws}

-- A value in front of more numbers.
pub record Codec (A : Type 0) : Type 0 where
  pub put : A → Bytes → Bytes
  pub get : Bytes → Option (A × Bytes)
  pub get-put : (a : A) (rest : Bytes) → get (put a rest) ≡ some (a, rest)

abbrev pub bind_option : {A B : Type 0} → Option A → (A → Option B) → Option B
bind_option none f = none
bind_option (some a) f = f a

abbrev get_number : Bytes → Option (ℕ × Bytes)
get_number [] = none
get_number (n ∷ rest) = some (n, rest)

abbrev pub number : Codec ℕ
number = record { put = λ n rest. n ∷ rest; get = get_number; get-put = λ n rest. refl }

abbrev get_string : Bytes → Option (Bytes × Bytes)
get_string [] = none
get_string (n ∷ rest) = some (take n rest, drop n rest)

abbrev put_string : Bytes → Bytes → Bytes
put_string bs rest = length bs ∷ bs ++ rest

pub get_string-put_string : (bs rest : Bytes) → get_string (put_string bs rest) ≡ some (bs, rest)
get_string-put_string bs rest = rw (take-length_append bs rest, drop-length_append bs rest)

abbrev pub string : Codec Bytes
string = record { put = put_string; get = get_string; get-put = get_string-put_string }

abbrev pub pair : {A B : Type 0} → Codec A → Codec B → Codec (A × B)
pair a b = record {
  put = λ p rest. a.put p.0 (b.put p.1 rest);
  get = λ bs. bind_option (a.get bs) (λ p. bind_option (b.get p.1) (λ q. some ((p.0, q.0), q.1)));
  get-put = λ p rest. rw (a.get-put p.0 (b.put p.1 rest), b.get-put p.1 rest);
}

abbrev pub mapped :
    {A B : Type 0} (f : A → B) (g : B → A) → ((a : A) → g (f a) ≡ a) → Codec B → Codec A
mapped f g back c = record {
  put = λ a rest. c.put (f a) rest;
  get = λ bs. bind_option (c.get bs) (λ p. some (g p.0, p.1));
  get-put = λ a rest. rw (c.get-put (f a) rest, back a);
}

module _ {A : Type 0} (c : Codec A) where
  abbrev put_option : Option A → Bytes → Bytes
  put_option none rest = 0 ∷ rest
  put_option (some a) rest = 1 ∷ c.put a rest

  abbrev get_option : Bytes → Option (Option A × Bytes)
  get_option [] = none
  get_option (zero ∷ rest) = some (none, rest)
  get_option (suc n ∷ rest) = bind_option (c.get rest) (λ p. some (some p.0, p.1))

  pub get_option-put_option :
      (o : Option A) (rest : Bytes) → get_option (put_option o rest) ≡ some (o, rest)
  get_option-put_option none rest = refl
  get_option-put_option (some a) rest = rw (c.get-put a rest)

  abbrev pub optional : Codec (Option A)
  optional = record { put = put_option; get = get_option; get-put = get_option-put_option }

  abbrev put_all : List A → Bytes → Bytes
  put_all [] rest = rest
  put_all (a ∷ items) rest = c.put a (put_all items rest)

  abbrev get_all : ℕ → Bytes → Option (List A × Bytes)
  get_all zero bs = some ([], bs)
  get_all (suc n) bs =
      bind_option (c.get bs) (λ p. bind_option (get_all n p.1) (λ q. some (p.0 ∷ q.0, q.1)))

  pub get_all-put_all :
      (items : List A) (rest : Bytes)
      → get_all (length items) (put_all items rest) ≡ some (items, rest)
  get_all-put_all [] rest = refl
  get_all-put_all (a ∷ items) rest =
      rw (c.get-put a (put_all items rest), get_all-put_all items rest)

  abbrev get_list : Bytes → Option (List A × Bytes)
  get_list [] = none
  get_list (n ∷ rest) = get_all n rest

  abbrev pub listed : Codec (List A)
  listed = record {
    put = λ items rest. length items ∷ put_all items rest;
    get = get_list;
    get-put = get_all-put_all;
  }

  abbrev pub json : Json A
  json = record {
    to_vec = λ a. c.put a [];
    from_slice = λ bs. bind_option (c.get bs) (λ p. some p.0);
  }

  pub json-JsonLaws : JsonLaws json
  json-JsonLaws = record { from_slice-to_vec = λ a. rw (c.get-put a []) }
