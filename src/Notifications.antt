-- ===== src/Notifications.antt =====
-- packages/notifications/src: preferences, the notification service, the local channels and the
-- reminder queue.
pub mod Preferences
pub mod Service
pub mod Local
pub mod Reminders
