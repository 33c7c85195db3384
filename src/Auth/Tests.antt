-- ===== src/Auth/Tests.antt =====
-- Runs of the accounts in lists, and the theorems at concrete accounts.
use mathlib.Core.Logic.{◌↔◌}
use esim_backend.Base.{ℕ, ◌≤◌, ◌≡◌, ◌≢◌, refl, none, some, List, [], ◌∷◌, ok, err, arith, ◌>>=◌}
use esim_backend.Base.Text.{Text, text, eqb_iff}
use esim_backend.Auth.Data.{AuthDb, find_by_email, unauthorized}
use esim_backend.Auth.Codes.{LoginResponse, send_otp_to, verify_otp, sign_in, get_tokens_data}
use esim_backend.Auth.Login.{validate_login, refresh_token}
use esim_backend.Auth.Profile.{reset_password}
use esim_backend.Auth.OneCode.{IsOneCode}
use esim_backend.Auth.Guesses.{Guess, code_of, refused, verify_otp-Guess}
use esim_backend.Auth.Attempts.{Attempt, wrong_guesses, wrong_guesses_bound}
use esim_backend.Auth.Sending.{verify_otp-send_otp_to, send_otp_to-IsOneCode}
use esim_backend.Auth.Refresh.{refresh_token_once}
use esim_backend.Auth.Passwords.{reset_password_sessions}
use esim_backend.Auth.SignIn.{MaySignIn, validate_login_lem}
use esim_backend.Auth.Fixtures.{local, ann, ann_session, one_account}

abbrev address : Text
address = text "ann@x.vn"

abbrev code : Text
code = text "123456"

abbrev guess : Text
guess = text "000000"

no_codes : IsOneCode one_account.otps
no_codes = record {
  one = λ x y m m' h. absurd m;
  ids = λ x y m m' h. absurd m;
  capped = λ x m. absurd m;
}

abbrev sent : AuthDb
sent = (send_otp_to 1000 [] code address one_account).1

sent_codes : IsOneCode sent.otps
sent_codes = send_otp_to-IsOneCode 1000 [] code address one_account refl no_codes

known : find_by_email (some address) sent ≡ some ann
unfolding send_otp_to ◌>>=◌
known = refl

send_otp_to-IsOneCode_example : IsOneCode (send_otp_to 1000 [] code address one_account).1.otps
send_otp_to-IsOneCode_example = send_otp_to-IsOneCode 1000 [] code address one_account refl no_codes

verify_otp-Guess_example :
    let out = verify_otp 2000 [] address guess sent in
    Guess 2000 guess (code_of 7 sent) (refused out.0) (code_of 7 out.1)
verify_otp-Guess_example = verify_otp-Guess 2000 [] address guess sent known sent_codes

abbrev try_at : ℕ → Attempt
try_at now = record { now = now; hash = []; otp = guess }

abbrev seven_tries : List Attempt
seven_tries = try_at 1 ∷ try_at 2 ∷ try_at 3 ∷ try_at 4 ∷ try_at 5 ∷ try_at 6 ∷ try_at 7 ∷ []

wrong_guesses_bound_example : wrong_guesses address seven_tries sent ≤ 5
wrong_guesses_bound_example = wrong_guesses_bound address seven_tries sent known sent_codes

-- The bound is met.
five_wrong : wrong_guesses address seven_tries sent ≡ 5
unfolding wrong_guesses verify_otp send_otp_to ◌>>=◌
five_wrong = refl

signed_in : refused (verify_otp 2000 [] address code sent).0 ≡ none
unfolding verify_otp send_otp_to ◌>>=◌
signed_in = refl

sending : (send_otp_to 1000 [] code address one_account).0 ≡ ok tt
unfolding send_otp_to ◌>>=◌
sending = refl

verify_otp-send_otp_to_example :
    refused (verify_otp 301000 [] address code (send_otp_to 1000 [] code address one_account).1).0
    ≡ none
verify_otp-send_otp_to_example =
    verify_otp-send_otp_to 1000 [] code address one_account refl 301000 [] no_codes (omega arith)
      sending

refresh_token_once_example :
    (refresh_token 20
      (text "cc")
      3
      (text "aa")
      (refresh_token 10 (text "bb") 3 (text "aa") one_account).1).0
    ≡ err unauthorized
refresh_token_once_example =
    refresh_token_once 10 20 (text "bb") (text "cc") 3 (text "aa") one_account
      (λ h. cc ((eqb_iff _ _).1 h))

-- The first of the two refreshes is answered.
refreshed :
    (refresh_token 10 (text "bb") 3 (text "aa") one_account).0
    ≡ ok (get_tokens_data 10 7 (some 2) 3 (text "bb"))
unfolding refresh_token ◌>>=◌
refreshed = refl

abbrev reset_hash : Text
reset_hash = local.forgot_jwt.sign 100 local.forgot_expires 7

reset_done : (reset_password 200 [] reset_hash (text "newone") one_account).0 ≡ ok tt
unfolding reset_password ◌>>=◌
reset_done = refl

reset_password_sessions_example :
    local.session.Holds ann_session
      (reset_password 200 [] reset_hash (text "newone") one_account).1.sessions
    ↔ (local.session.Holds ann_session one_account.sessions × (ann_session.user_id ≢ 7))
reset_password_sessions_example =
    reset_password_sessions 200 [] reset_hash (text "newone") one_account refl refl reset_done
      ann_session

abbrev ann_in : LoginResponse
ann_in = record {
  tokens = record {
    token = 900010 ∷ 7 ∷ 4 ∷ 2 ∷ [];
    refresh_token = 3000000010 ∷ 4 ∷ text "dd";
    token_expires = 900010;
  };
  user = ann;
}

logged_in : (validate_login 10 (text "dd") address (text "secret") one_account).0 ≡ ok ann_in
unfolding validate_login ◌>>=◌
logged_in = refl

validate_login_lem_example :
    ((validate_login 10 (text "dd") address (text "secret") one_account).0 ≡ ok ann_in) ↔ (
      MaySignIn address (text "secret") one_account ann
      × ((sign_in 10 (text "dd") ann one_account).0 ≡ ok ann_in))
validate_login_lem_example =
    validate_login_lem 10 (text "dd") address (text "secret") one_account ann_in

-- The account may sign in with its password.
ann-MaySignIn : MaySignIn address (text "secret") one_account ann
ann-MaySignIn =
    ((validate_login_lem 10 (text "dd") address (text "secret") one_account ann_in).0 logged_in).0
