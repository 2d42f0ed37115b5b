-- ===== src/Engine/Theorems/Expiry.antt =====
-- packages/domain/src/engine.ts: `getInterviewExpiresAt` and `isInterviewExpired` agree.
use interview_agent.Common.{Date, ◌≡◌, arith, true, ok, is_valid, before}
use interview_agent.Interview.{active}
use interview_agent.Engine.{Interview}
use interview_agent.Engine.Guards.{is_interview_expired, get_interview_expires_at}

-- An active interview has expired at a valid date exactly when the date lies after the expiry that
-- `getInterviewExpiresAt` tells, where that expiry is an instant that a `Date` can hold.
pub is_interview_expired-get_interview_expires_at :
    (i : Interview) (d : Date)
    → i.status ≡ active
    → is_valid d ≡ true
    → is_valid (get_interview_expires_at i) ≡ true
    → is_interview_expired i d ≡ ok (before (get_interview_expires_at i) d)
unfolding is_interview_expired get_interview_expires_at
is_interview_expired-get_interview_expires_at i d act valid instant = ground arith
