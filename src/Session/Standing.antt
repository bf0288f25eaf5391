-- ===== src/Session/Standing.antt =====
-- What a heartbeat (internal/licensecore/server.go, handleHeartbeat) leaves alone, and what it answers.
use license_guard.Base.{
  String, List, map, false, ◌&&◌, not, Option, none, some, if◌then◌else◌, ◌≡◌, refl, sym, ◌∙◌,
  arith, Bool-cases, inl, inr, map-update_first, pos, subst, is_empty, ◌==◌,
}
use license_guard.Types.{LicenseTokenClaims, Activation, Device, IntegrityRequest, RiskEvent, Time}
use license_guard.Server.{Server, Env, save_locked, add_risk_event_locked, add_events}
use license_guard.Server.Find.{find_device_by_id_locked}
use license_guard.Token.{TokenResult, valid, expired, invalid, verify_license_token}
use license_guard.Integrity.{evaluate_integrity_locked}
use license_guard.Integrity.Verdict.{evaluate_integrity_locked-events}
use license_guard.Verification.Frame.{admin_part}
use license_guard.Session.{SessionReply, failure, with_token, save_and_reply, is_other_install}
use license_guard.Session.Heartbeat.{
  Heartbeat, integrity_request_has_evidence, with_version, touch_activation, write_device,
  beating_client, assess_heartbeat, report_heartbeat, beat, handle_heartbeat,
}

-- An activation and a device, but for the times of the last contact and the risk score.
abbrev pub activation_standing : Activation → Activation
activation_standing a = record a { last_verified_at = 0 }

abbrev pub device_standing : Device → Device
device_standing d = record d { last_seen_at = 0; risk_score = pos 0 }

-- The licenses, activations and devices agree, but for what a contact renews, and so does all that only
-- administrators change.
pub record SameStanding (s s' : Server) : Type 0 where
  pub kept : admin_part s' ≡ admin_part s
  pub licenses : s'.contents.licenses ≡ s.contents.licenses
  pub activations :
      map activation_standing s'.contents.activations
      ≡ map activation_standing s.contents.activations
  pub devices : map device_standing s'.contents.devices ≡ map device_standing s.contents.devices

SameStanding-refl : (s : Server) → SameStanding s s
SameStanding-refl s = record { kept = refl; licenses = refl; activations = refl; devices = refl }

SameStanding-trans : (s t u : Server) → SameStanding s t → SameStanding t u → SameStanding s u
SameStanding-trans s t u h k = record {
  kept = k.kept ∙ h.kept;
  licenses = k.licenses ∙ h.licenses;
  activations = k.activations ∙ h.activations;
  devices = k.devices ∙ h.devices;
}

save_and_reply-SameStanding :
    (env : Env) (reply : SessionReply) (s : Server) → SameStanding s (save_and_reply env reply s).0
unfolding save_and_reply save_locked
save_and_reply-SameStanding env reply s = record {
  kept = ground arith;
  licenses = ground arith;
  activations = ground arith;
  devices = ground arith;
}

add_events-SameStanding :
    (events : List RiskEvent) (s : Server) → SameStanding s (add_events events s)
unfolding add_events
add_events-SameStanding events s = record {
  kept = refl;
  licenses = refl;
  activations = refl;
  devices = refl;
}

touch_activation-SameStanding :
    (now : Time) (claims : LicenseTokenClaims) (s : Server)
    → SameStanding s (touch_activation now claims s)
unfolding touch_activation
touch_activation-SameStanding now claims s = record {
  kept = refl;
  licenses = refl;
  activations = map-update_first activation_standing _ _ s.contents.activations (λ a. refl);
  devices = refl;
}

write_device-SameStanding :
    (claims : LicenseTokenClaims) (f : Device → Device) (s : Server)
    → ((d : Device) → device_standing (f d) ≡ device_standing d)
    → SameStanding s (write_device claims f s)
unfolding write_device
write_device-SameStanding claims f s h = record {
  kept = refl;
  licenses = refl;
  activations = refl;
  devices = map-update_first device_standing _ f s.contents.devices h;
}

assess_heartbeat-SameStanding :
    (env : Env) (claims : LicenseTokenClaims) (platform : String) (i : IntegrityRequest)
    (now : Time) (s : Server)
    → SameStanding s (assess_heartbeat env claims platform i now s).0
unfolding assess_heartbeat
assess_heartbeat-SameStanding env claims platform i now s =
    let v = evaluate_integrity_locked env s (beating_client claims platform i) in
    let evaluated : SameStanding s v.server =
      subst (SameStanding s)
        (sym (evaluate_integrity_locked-events env s (beating_client claims platform i)))
        (add_events-SameStanding _ s) in
    let scored =
      write_device-SameStanding claims (λ d. record d { risk_score = v.risk.score }) v.server
        (λ d. refl) in
    let saved = save_and_reply-SameStanding env _ _ in
    SameStanding-trans s _ _
      (SameStanding-trans s v.server _ evaluated (record {
        kept = scored.kept;
        licenses = scored.licenses;
        activations = scored.activations;
        devices = scored.devices;
      }))
      saved

report_heartbeat-SameStanding :
    (env : Env) (claims : LicenseTokenClaims) (platform version : String)
    (i : Option IntegrityRequest) (now : Time) (s : Server)
    → SameStanding s (report_heartbeat env claims platform version i now s).0
unfolding report_heartbeat
report_heartbeat-SameStanding env claims platform version none now s =
    save_and_reply-SameStanding env _ s
report_heartbeat-SameStanding env claims platform version (some i) now s =
    elim (Bool-cases (not (integrity_request_has_evidence (with_version version i)))) [
      | inl e ↦ rw e (save_and_reply-SameStanding env _ s)
      | inr e ↦
          rw e (assess_heartbeat-SameStanding env claims platform (with_version version i) now s)
    ]

beat-SameStanding :
    (env : Env) (s : Server) (h : Heartbeat) (claims : LicenseTokenClaims)
    → SameStanding s (beat env s h claims).0
unfolding beat add_risk_event_locked
beat-SameStanding env s h claims =
    let now = env.time 1316 in
    let touched = touch_activation now claims s in
    let same = touch_activation-SameStanding now claims s in
    let device = find_device_by_id_locked touched claims.device_id in
    elim (Bool-cases (is_other_install env device h.install_id)) [
      | inl e ↦ rw e (
          SameStanding-trans s touched _ same (
            SameStanding-trans touched _ _ (add_events-SameStanding _ touched)
              (save_and_reply-SameStanding env _ _)))
      | inr e ↦ rw e (
          SameStanding-trans s touched _ same (
            SameStanding-trans touched _ _
              (write_device-SameStanding claims (λ d. record d { last_seen_at = now }) touched
                (λ d. refl))
              (report_heartbeat-SameStanding env claims _ h.app_version h.integrity now _)))
    ]

-- A heartbeat, whatever it is answered, leaves the licenses and all that only administrators change as
-- they were; and it adds, removes and reorders no activation and no device, and changes nothing of them
-- but the times of the last contact and the risk scores.
pub handle_heartbeat-SameStanding :
    (env : Env) (s : Server) (h : Heartbeat) → SameStanding s (handle_heartbeat env s h).0
unfolding handle_heartbeat with_token
handle_heartbeat-SameStanding env s h =
    by_token (verify_license_token env.crypto s.public_key (env.time 1306) h.license_token false)
  where
    by_token :
        (r : TokenResult)
        → SameStanding s
            (elim r as (λ _. Server × SessionReply) [
              | invalid e ↦ (s, failure 401 "INVALID_TOKEN" e)
              | expired claims ↦ (s, failure 401 "INVALID_TOKEN" "license token expired")
              | valid claims ↦
                  let out = beat env s h claims in
                  if not (is_empty h.app_id) && not (claims.app_id == h.app_id)
                  then (s, failure 403 "APP_MISMATCH" "token app does not match request app")
                  else out
            ]).0
    by_token (invalid e) = SameStanding-refl s
    by_token (expired claims) = SameStanding-refl s
    by_token (valid claims) =
        elim (Bool-cases (not (is_empty h.app_id) && not (claims.app_id == h.app_id))) [
          | inl e ↦ rw e (SameStanding-refl s)
          | inr e ↦ rw e (beat-SameStanding env s h claims)
        ]
