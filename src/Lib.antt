-- ===== src/Lib.antt =====
-- License Guard: the license server of internal/licensecore and its Go client of sdk/go/licenseguard.
--
-- The server keeps apps, licenses, devices, activations, releases, capability policies and risk events
-- (`Data`), and in memory its challenges and failed attempts. A client asks for a challenge, and then
-- activates or verifies a license with it; the server checks the challenge, the app, the license, the
-- device and the client's integrity report, and answers with a signed token, signed capability
-- decisions and an update offer. With the token the client then sends heartbeats, asks for capabilities,
-- and deactivates itself; it keeps the reply, and decides by it while it is offline. Administrators log
-- in, and act on licenses, devices, risk events and settings, which is audited.
--
-- Types: internal/licensecore/types.go. The structs as records, with the fields in snake_case; a
--   time.Time is the nanoseconds since its zero value, a Go `any` is a `Value`.
-- Token: internal/licensecore/token.go, SignLicenseToken and VerifyLicenseToken. Ed25519, base64 and
--   JSON are the operations of `Crypto`, whose laws are `IsLawful`.
-- The other modules are parts of internal/licensecore/server.go:
-- Server: the struct Server, saveLocked, newID, addRiskEventLocked; Server.Find: the find…Locked searches.
-- RateLimit: isRateLimitedLocked, recordRateLimitFailureLocked, resetRateLimitLocked and their keys.
-- Challenge: handleChallenge, validateChallengeLocked, cleanupExpiredChallengesLocked.
-- Capability: capabilityDecision and the normal forms; Capability.Registry: the writes of policies
--   and the signed bundle.
-- Release: findReleaseLocked, latestReleaseLocked, releaseInRollout, updateInfoLocked;
--   Release.Version: compareVersionStrings.
-- Settings: normalizeSystemSettings.
-- Integrity: evaluateIntegrityLocked, with its checks in Integrity.ReleaseChecks and
--   Integrity.ReportChecks.
-- Verification: processClientVerification, handleActivate, handleVerify. Its blocks are steps on the
--   server (Verification.Monad) in Verification.Licensing, Verification.Admission and
--   Verification.Grant; each stops with a reply or goes on.
-- Session: handleCapabilityCheck, handleDeactivate, addCapabilityDenyRiskEventLocked;
--   Session.Heartbeat: handleHeartbeat.
-- System: the client routes of ServeHTTP as one operation, and the states that requests lead to.
-- Audit: auditLocked and the redaction of what it records.
-- Admin: handleLicenseAction, handleDeviceAction, handleRiskEventAction, handleSettings; Admin.Catalog:
--   handleLicenses and the releases of handleAppDetail; Admin.Policies: handleCapabilityPolicies;
--   Admin.Apps: handleApps and handleSDKKeyRotate.
-- Accounts: handleAdminLogin, requireAdmin, handleAdminLogout, handleAdminPasswordChange.
-- Sdk: sdk/go/licenseguard/token.go, with SaveToken of cache_other.go and what client.go keeps of a reply.
-- Migration: splitSQLStatements of internal/licensecore/migration.go.
-- Base: tests, integers, texts, maps, sorting. Tests: examples.
--
-- Conventions. `Env` holds what is outside of the program: `env.time l` is what time.Now() returned at
-- line l of server.go and `new_id env l` the id made there, each a free parameter; `env.save` is the error
-- of `store.Save`, and `saves` lists what the store was handed. A critical section is one step, so the
-- mutex is not modelled; handleChallenge has two, which are one step here too. A pointer into a stored
-- list is the element that a search finds, and a write through it is `update_first` by the same test. Go's
-- int is ℤ without wrap-around, but for the digits of a version, which wrap at 64 bits. A Duration is not
-- saturated at 292 years. Lower and upper case and case folding are those of ASCII. sort.Slice is an
-- insertion sort, which is one of the orders that it may give. All loops are structural recursion, so no
-- fuel is needed.
--
-- Not modelled: JSON decoding of requests, CORS, the dashboard, onboarding, diagnostics, the integration
-- bundles, the stores (files, PostgreSQL), the migration's SQL, the commands, the client's HTTP requests,
-- device probing and DPAPI cache, the web front end.
pub mod Base
pub mod Types
pub mod Token
pub mod Server
pub mod RateLimit
pub mod Challenge
pub mod Capability
pub mod Release
pub mod Settings
pub mod Integrity
pub mod Verification
pub mod Session
pub mod Audit
pub mod Admin
pub mod Accounts
pub mod Sdk
pub mod System
pub mod Migration
pub mod Tests
