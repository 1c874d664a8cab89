-- ===== src/Api/Csv/Headers.antt =====
-- Which header rows are accepted.
use portfolio_analytics_api.Api.Csv.{
  validate_headers, is_nil, has_duplicates, allowed_headers, all_of, required_headers, elem,
}
use portfolio_analytics_api.Common.Text.{strip, is_empty, text_eq→eq, text_eq, text_eq_refl, Text}
use portfolio_analytics_api.Common.{
  map, some, any, Bool-cases, ◌⊎◌, ◌≢◌, All, ◌≡◌, Bool, List, arith, inr, inl, ◌∷◌, [], false, true,
  refl,
}
use portfolio_analytics_api.Errors.{import_format, ok, err}

abbrev pub In : Text → List Text → Type 0
In s [] = ⊥
In s (t ∷ names) = (t ≡ s) ⊎ In s names

abbrev pub AllDifferent : List Text → Type 0
AllDifferent [] = Unit
AllDifferent (s ∷ names) = All (λ t. t ≢ s) names × AllDifferent names

-- Names that no two columns share, all the required ones and allowed ones only.
pub record IsHeader (headers : List Text) : Type 0 where
  pub some_column : headers ≢ []
  pub filled : All (λ h. h ≢ []) headers
  pub different : AllDifferent headers
  pub complete : All (λ name. In name headers) required_headers
  pub allowed : All (λ h. In h allowed_headers) headers

elem-In : (s : Text) (names : List Text) → elem s names ≡ true → In s names
elem-In s [] h = absurd (cc)
elem-In s (t ∷ names) h = elim (Bool-cases (text_eq t s)) [
  | inl same ↦ inl (text_eq→eq t s same)
  | inr other ↦ inr (elem-In s names (rw other at h))
]

In-elem : (s : Text) (names : List Text) → In s names → elem s names ≡ true
In-elem s [] m = elim m [ ]
In-elem s (t ∷ names) (inl e) = rw (e, text_eq_refl s) refl
In-elem s (t ∷ names) (inr m) = rw (In-elem s names m) (ground arith)

text_eq_apart : (s t : Text) → s ≢ t → text_eq s t ≡ false
text_eq_apart s t apart = elim (Bool-cases (text_eq s t)) [
  | inl same ↦ absurd (apart (text_eq→eq s t same))
  | inr other ↦ other
]

-- A test of every element, in both directions.
module _ {A : Type 0} (P : A → Type 0) (test : A → Bool) where
  all_of-All : ((x : A) → test x ≡ true → P x) → (xs : List A) → all_of test xs ≡ true → All P xs
  all_of-All f [] h = tt
  all_of-All f (x ∷ xs) h = elim (Bool-cases (test x)) [
    | inl holds ↦ (f x holds, all_of-All f xs (rw holds at h))
    | inr fails ↦ absurd (cc (rw fails at h))
  ]

  All-all_of : ((x : A) → P x → test x ≡ true) → (xs : List A) → All P xs → all_of test xs ≡ true
  All-all_of f [] h = refl
  All-all_of f (x ∷ xs) h = rw (f x h.0, All-all_of f xs h.1) refl

  any-None : ((x : A) → test x ≡ false → P x) → (xs : List A) → any test xs ≡ false → All P xs
  any-None f [] h = tt
  any-None f (x ∷ xs) h = (f x (ground arith), any-None f xs (ground arith))

  None-any : ((x : A) → P x → test x ≡ false) → (xs : List A) → All P xs → any test xs ≡ false
  None-any f [] h = refl
  None-any f (x ∷ xs) h = rw (f x h.0, None-any f xs h.1) refl

fields-AllDifferent : (names : List Text) → has_duplicates names ≡ false → AllDifferent names
fields-AllDifferent [] h = tt
fields-AllDifferent (s ∷ names) h = (
  any-None (λ t. t ≢ s) (λ t. text_eq t s) (λ t apart e. absurd (cc (apart, text_eq_refl s, e)))
      names (ground arith),
  fields-AllDifferent names (ground arith),
)

AllDifferent-fields : (names : List Text) → AllDifferent names → has_duplicates names ≡ false
AllDifferent-fields [] h = refl
AllDifferent-fields (s ∷ names) h =
    rw
      (
        None-any (λ t. t ≢ s) (λ t. text_eq t s) (λ t apart. text_eq_apart t s apart) names h.0,
        AllDifferent-fields names h.1,
      )
      refl

filled-some : (s : Text) → is_empty s ≡ false → s ≢ []
filled-some [] h e = absurd (cc)
filled-some (c ∷ s) h e = cc

some-filled : (s : Text) → s ≢ [] → is_empty s ≡ false
some-filled [] h = absurd (h refl)
some-filled (c ∷ s) h = refl

is_nil-map : (names : List Text) → is_nil names ≡ false → map strip names ≢ []
is_nil-map [] h e = absurd (cc)
is_nil-map (s ∷ names) h e = cc

clash : {b : Bool} → b ≡ true → b ≡ false → ⊥
clash p q = cc

complete-all_of :
    (headers : List Text)
    → All (λ name. In name headers) required_headers
    → all_of (λ name. elem name headers) required_headers ≡ true
complete-all_of headers h =
    All-all_of (λ name. In name headers) (λ name. elem name headers) (λ name. In-elem name headers)
      required_headers h

allowed-all_of :
    (headers : List Text)
    → All (λ h. In h allowed_headers) headers
    → all_of (λ name. elem name allowed_headers) headers ≡ true
allowed-all_of headers h =
    All-all_of (λ name. In name allowed_headers) (λ name. elem name allowed_headers)
      (λ name. In-elem name allowed_headers) headers h

some-is_nil : (names : List Text) → map strip names ≢ [] → is_nil names ≡ false
some-is_nil [] h = absurd (h refl)
some-is_nil (s ∷ names) h = refl

-- A header row is accepted, with its names stripped, exactly if the stripped names are those of a
-- header: at least one, none blank, no two alike, every required column and only columns that are
-- allowed. Any other row is refused as a format error.
pub validate_headers-IsHeader :
    (names : List Text)
    → ((validate_headers (some names) ≡ ok (map strip names)) × IsHeader (map strip names))
      ⊎ ((validate_headers (some names) ≡ err import_format) × ¬ (IsHeader (map strip names)))
unfolding validate_headers
validate_headers-IsHeader names =
    let headers = map strip names in
    elim (Bool-cases (is_nil names)) [
      | inl b ↦ rw b (inr (refl, λ h. clash b (some-is_nil names h.some_column)))
      | inr b1 ↦ elim (Bool-cases (any is_empty headers)) [
        | inl b ↦
            rw (b1, b)
              (inr
                (refl, λ h. clash b (None-any (λ s. s ≢ []) is_empty some-filled headers h.filled)))
        | inr b2 ↦ elim (Bool-cases (has_duplicates headers)) [
          | inl b ↦
              rw (b1, b2, b) (inr (refl, λ h. clash b (AllDifferent-fields headers h.different)))
          | inr b3 ↦ elim (Bool-cases (all_of (λ name. elem name headers) required_headers)) [
            | inr b ↦
                rw (b1, b2, b3, b) (inr (refl, λ h. clash (complete-all_of headers h.complete) b))
            | inl b4 ↦ elim (Bool-cases (all_of (λ name. elem name allowed_headers) headers)) [
              | inr b ↦
                  rw (b1, b2, b3, b4, b)
                    (inr (refl, λ h. clash (allowed-all_of headers h.allowed) b))
              | inl b5 ↦
                  rw (b1, b2, b3, b4, b5)
                    (inl (
                      refl,
                      record {
                        some_column = is_nil-map names b1;
                        filled = any-None (λ s. s ≢ []) is_empty filled-some headers b2;
                        different = fields-AllDifferent headers b3;
                        complete =
                            all_of-All (λ name. In name headers) (λ name. elem name headers)
                              (λ name. elem-In name headers) required_headers b4;
                        allowed =
                            all_of-All (λ h. In h allowed_headers) (λ h. elem h allowed_headers)
                              (λ h. elem-In h allowed_headers) headers b5;
                      },
                    ))
            ]
          ]
        ]
      ]
    ]
