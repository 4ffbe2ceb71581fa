-- ===== src/Errors.antt =====
-- error.rs: the error type, its `Display` and `with_path`. An I/O error of the standard library
-- is its kind, of which the program tests one, and its message.
use nixos_router_module.Base.{Bool, List, [], false, inl, inr, refl, sym, true, ◌++◌, ◌∷◌, ◌≡◌, ◌⊎◌}
use nixos_router_module.Paths.{FilePath, display_path}
use nixos_router_module.Text.{Text, text}

pub data StdResult {ℓ κ} (E : Type ℓ) (A : Type κ) : Type (ℓ ⊔ κ) where
  ok : A → StdResult E A
  err : E → StdResult E A

-- `Result::map_err`
abbrev pub map_err {ℓ κ μ} :
    {E : Type ℓ} {F : Type κ} {A : Type μ} → (E → F) → StdResult E A → StdResult F A
map_err f (ok a) = ok a
map_err f (err e) = err (f e)

pub data ErrorKind : Type 0 where
  not_found other : ErrorKind

pub record IoError : Type 0 where
  pub kind : ErrorKind
  pub message : Text

infixl 5 ◌>>=◌
abbrev pub ◌>>=◌ {ℓ κ μ} :
    {E : Type ℓ} {A : Type κ} {B : Type μ} → StdResult E A → (A → StdResult E B) → StdResult E B
ok a >>= f = f a
err e >>= f = err e

infixl 5 ◌>>◌
abbrev pub ◌>>◌ {ℓ κ} :
    {E : Type ℓ} {B : Type κ} → StdResult E (Unit {0}) → StdResult E B → StdResult E B
m >> k = m >>= λ _. k

abbrev pub IoResult {ℓ} : Type ℓ → Type ℓ
IoResult A = StdResult IoError A

pub data PxeBootError : Type 0 where
  io : IoError → PxeBootError
  io_path : FilePath → IoError → PxeBootError
  grub_write : FilePath → IoError → PxeBootError
  mount_failed : FilePath → Text → PxeBootError
  detection_failed : Text → Text → PxeBootError
  grub_generation : Text → PxeBootError
  config : Text → PxeBootError
  file_not_found : FilePath → PxeBootError
  template : Text → PxeBootError
  json : Text → PxeBootError

-- The `#[error(...)]` formats
pub error_text : PxeBootError → Text
error_text (io e) = text "I/O error: " ++ e.message
error_text (io_path path e) =
    text "I/O error on " ++ (display_path path ++ (text ": " ++ e.message))
error_text (grub_write path e) =
    text "Failed to write GRUB menu to " ++ (display_path path ++ (text ": " ++ e.message))
error_text (mount_failed path reason) =
    text "Failed to mount ISO " ++ (display_path path ++ (text ": " ++ reason))
error_text (detection_failed iso reason) =
    text "Distribution detection failed for " ++ (iso ++ (text ": " ++ reason))
error_text (grub_generation reason) = text "GRUB generation failed: " ++ reason
error_text (config reason) = text "Configuration error: " ++ reason
error_text (file_not_found path) = text "File not found: " ++ display_path path
error_text (template reason) = text "Template error: " ++ reason
error_text (json reason) = text "JSON error: " ++ reason

abbrev pub Result {ℓ} : Type ℓ → Type ℓ
Result A = StdResult PxeBootError A

-- Of several results the first error counts.
unfoldable pub first_error : List (Result (Unit {0})) → Result (Unit {0})
first_error [] = ok tt
first_error (ok _ ∷ rest) = first_error rest
first_error (err e ∷ rest) = err e

unfoldable pub with_path {ℓ} : {A : Type ℓ} → IoResult A → FilePath → Result A
with_path r path = map_err (io_path path) r

abbrev pub is_ok {ℓ κ} : {E : Type ℓ} {A : Type κ} → StdResult E A → Bool
is_ok (ok a) = true
is_ok (err e) = false

-- A chain that succeeds has passed its first step.
pub >>=-eq-ok {ℓ κ μ} :
    {E : Type ℓ} {A : Type κ} {B : Type μ} {b : B} (f : A → StdResult E B) (m : StdResult E A)
    → ok b ≡ (m >>= f)
    → (a : A) × (f a ≡ ok b) × (m ≡ ok a)
>>=-eq-ok f (err e) h = cc
>>=-eq-ok f (ok a) h = (a, sym h, refl)

pub StdResult-cases {ℓ κ} :
    {E : Type ℓ} {A : Type κ} (r : StdResult E A) → ((e : E) × (r ≡ err e)) ⊎ ((a : A) × (r ≡ ok a))
StdResult-cases (ok a) = inr (a, refl)
StdResult-cases (err e) = inl (e, refl)

-- The same with the state that comes with a result.
pub Outcome-cases {ℓ κ μ} :
    {E : Type ℓ} {A : Type κ} {S : Type μ} (m : StdResult E A × S)
    → ((e : E) × (t : S) × (m ≡ (err e, t))) ⊎ ((a : A) × (t : S) × (m ≡ (ok a, t)))
Outcome-cases (ok a, t) = inr (a, t, refl)
Outcome-cases (err e, t) = inl (e, t, refl)

pub ok_of_is_ok {ℓ κ} :
    {E : Type ℓ} {A : Type κ} (r : StdResult E A) → is_ok r ≡ true → (a : A) × (r ≡ ok a)
ok_of_is_ok (ok a) h = (a, refl)
ok_of_is_ok (err e) h = cc

pub is_ok_of_map_err :
    {A : Type 0} (f : IoError → PxeBootError) (r : IoResult A) (a : A)
    → map_err f r ≡ ok a
    → is_ok r ≡ true
is_ok_of_map_err f (ok b) a h = refl
is_ok_of_map_err f (err e) a h = cc
