-- ===== src/Social.antt =====
-- Friends, groups and their messages: src/store/socialStore.ts, src/hooks/useSocialData.ts and
-- `handleSocialEvent` of src/App.tsx.
pub mod Store
pub mod Capped
pub mod Log
pub mod Events
pub mod Data
pub mod Changes
pub mod Distinct
pub mod Fresh
pub mod Races
mod Tests
